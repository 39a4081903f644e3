-- ===== src/Pipeline/System/Tests.antt =====
-- Packets and rounds at concrete inputs.
use ebpf_nids.Prelude.{◌≡◌, refl, ◌++◌, true, none, List, [], ◌∷◌, arith, replicate, drop}
use ebpf_nids.Prelude.Int.{pos}
use ebpf_nids.Kernel.{Maps}
use ebpf_nids.Xdp.Scan.{empty_bitmap, clear}
use ebpf_nids.Xdp.Syn.{syn_alert}
use ebpf_nids.Xdp.Firewall.{is_blocked}
use ebpf_nids.Xdp.Firewall.Verdict.{classify, blocked_kind}
use ebpf_nids.Xdp.Scan.Refine.{touch, contains, clear-Represents}
use ebpf_nids.Xdp.Firewall.Totals.{Arrival}
use ebpf_nids.Loader.Clients.{client, again}
use ebpf_nids.Loader.Clients.Conserve.{count, handed}
use ebpf_nids.Loader.Loop.{Tick}
use ebpf_nids.Loader.Config.{missing}
use ebpf_nids.Pipeline.Tests.{kernel, state, net, takes}
use ebpf_nids.Pipeline.Tests as PipelineTests
use ebpf_nids.Pipeline.Watch.{Watched, Tracks, due, syn_packet, syn_of}
use ebpf_nids.Pipeline.System.{Consumer, System, Happening, arrives, round}
use ebpf_nids.Pipeline.System.Rounds.{Serves}
use ebpf_nids.Pipeline.System.Delivery.{due_of, arrivals, Delivers, AllAllow, alerts_delivered}

abbrev consumer : Consumer kernel.alert_rb
consumer = record { consume = λ q n. drop n q; events-consume = λ q n. refl }

-- 10.0.0.2 has sent 100 SYN packets.
abbrev maps : Maps kernel
maps = record {
  blacklist = [];
  flow_stats = [];
  syn_counter = (0x0200_000a, 100) ∷ [];
  port_scan_map = (0x0200_000a, empty_bitmap) ∷ [];
  alert_rb = [];
}

-- Its next one goes to port 80 of 10.0.0.9.
abbrev syn : Arrival
syn = record {
  packet =
      replicate 12 0
      ++ (8 ∷ 0 ∷ 0x45 ∷ [])
      ++ (replicate 8 0
          ++ (6 ∷ 0 ∷ 0 ∷ 10 ∷ 0 ∷ 0 ∷ 2 ∷ 10 ∷ 0 ∷ 0 ∷ 9 ∷ 4 ∷ 0 ∷ 0 ∷ 80 ∷ replicate 9 0)
          ++ (2 ∷ replicate 6 0));
  syn_time = 11;
  scan_time = 12;
}

abbrev tick : Tick
tick = record {
  signals = [];
  now = 100;
  calls = client 8 ∷ again ∷ [];
  getfl = λ fd. pos 2;
  file = missing;
  fopen_ok = true;
  polled = [];
  view = record { next_key = λ o. none; value = λ k. none };
  world = record { alloc = λ ip. true; time = λ ip. 100; net = net };
  fuel = 9;
}

abbrev system : System kernel
system = record { maps = maps; loop = record { state = state; last_stats_ts = 0; made = [] } }

abbrev watched : Watched
watched = record { count = 100; ports = [] }

tracks : Tracks kernel maps 0x0200_000a watched
unfolding clear
tracks = record {
  counter = refl;
  low = omega arith;
  bitmap = record {
    bitmap = empty_bitmap;
    found = refl;
    represents = clear-Represents empty_bitmap refl;
  };
}

serves : Serves 5 tick
unfolding count handed
serves = record {
  fuelled = record { keys = []; iterates = refl; enough = omega arith };
  takes = takes;
  others = refl;
}

abbrev happenings : List Happening
happenings = arrives syn ∷ round 5 tick ∷ []

allowed : AllAllow kernel consumer 5 system happenings
unfolding AllAllow
allowed = (λ e e'. (refl, refl), λ s h. (serves, λ s' h'. tt))

-- The packet is due one report, of a flood.
one_due :
    due_of kernel [] 0x0200_000a watched (arrivals happenings)
    ≡ syn_alert 0x0200_000a 0x0900_000a 11 ∷ []
unfolding due_of arrivals due syn_packet syn_of classify blocked_kind is_blocked touch contains
one_due = refl

alerts_delivered_example : Delivers kernel consumer 5 system 0x0200_000a watched happenings
alerts_delivered_example =
    alerts_delivered kernel consumer 5 system 0x0200_000a watched happenings tracks refl
      PipelineTests.client allowed
