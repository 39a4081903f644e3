-- ===== src/Pipeline/Tests.antt =====
-- Runs from packets to clients and rates.
use ebpf_nids.Prelude.{
  ℕ, ◌≡◌, refl, ◌+◌, ◌<◌, ◌^◌, replicate, true, false, none, some, Option, length, List, [], ◌∷◌,
  ◌++◌, arith,
}
use ebpf_nids.Kernel.{Kernel, Maps, FlowStats, PortBitmap}
use ebpf_nids.Xdp.Firewall.Totals.{Arrival, source, counts, packets_of, bytes_of}
use ebpf_nids.Xdp.Firewall.{is_blocked}
use ebpf_nids.Xdp.Firewall.Verdict.{classify, blocked_kind}
use ebpf_nids.Loader.Rates.{find_cache, period}
use ebpf_nids.Loader.Rates.Account.{Accounts}
use mathlib.Core.List.{map}
use ebpf_nids.Loader.Json.{FlowRate, flow_json}
use ebpf_nids.Loader.Stats.{Reporter}
use ebpf_nids.Pipeline.Flows.{rates_of, pps_total, bps_total}
use ebpf_nids.Pipeline.Flows.Delivery.{Pass, Visits, all_arrivals, run_passes, rates_delivered}
use ebpf_nids.Kernel.Tables.{table, ring}
use ebpf_nids.Loader.Config.{config_defaults}
use ebpf_nids.Loader.Clients.{took}
use ebpf_nids.Loader.Clients.Conserve.{count, held}
use ebpf_nids.Loader.Publish.{Network}
use ebpf_nids.Loader.System.{State}
use ebpf_nids.Pipeline.{stream, TakesAll, IsClient}

-- Client 5 has the second slot.
abbrev pub state : State
state = record {
  cfg = config_defaults;
  log_fp = false;
  skel = true;
  rb = true;
  ifindex = 2;
  xdp_attached = true;
  server_fd = some 3;
  publisher = record { slots = some 7 ∷ some 5 ∷ []; closed = []; streams = []; broadcasts = 0 };
  cache_head = [];
  exiting = false;
  reload_requested = false;
}

abbrev pub net : Network
net = λ n fd. took 600

pub takes : TakesAll net 5
unfolding TakesAll
takes = λ n. (600, refl, omega arith)

pub client : IsClient 5 state.publisher
unfolding IsClient held count
client = refl

abbrev pub kernel : Kernel
kernel = record {
  blacklist = table ℕ 4;
  flow_stats = table FlowStats 4;
  syn_counter = table ℕ 4;
  port_scan_map = table PortBitmap 4;
  alert_rb = ring 8;
}

abbrev known : FlowStats
known = record { pkt_count = 7; byte_count = 700 }

abbrev maps : Maps kernel
maps = record {
  blacklist = [];
  flow_stats = (0x0200_000a, known) ∷ [];
  syn_counter = [];
  port_scan_map = [];
  alert_rb = [];
}

-- A UDP packet of 40 bytes from 10.0.0.2 to 10.0.0.9.
abbrev arrival : Arrival
arrival = record {
  packet =
      replicate 12 0
      ++ (8 ∷ 0 ∷ 0x45 ∷ [])
      ++ (replicate 8 0 ++ (17 ∷ 0 ∷ 0 ∷ 10 ∷ 0 ∷ 0 ∷ 2 ∷ 10 ∷ 0 ∷ 0 ∷ 9 ∷ replicate 6 0));
  syn_time = 1;
  scan_time = 2;
}

-- The map has one key.
abbrev one_key : Option ℕ → Option ℕ
one_key none = some 0x0200_000a
one_key (some key) = none

abbrev pass_at : ℕ → List Arrival → Pass
pass_at now arrivals = record {
  arrivals = arrivals;
  next_key = one_key;
  world = record { alloc = λ ip. true; time = λ ip. now; net = net };
  fuel = 1;
}

abbrev passes : List Pass
passes = pass_at 100 (arrival ∷ arrival ∷ []) ∷ pass_at 105 (arrival ∷ []) ∷ []

abbrev reporter : Reporter
reporter = record {
  cache = record { ip = 0x0200_000a; pkts = 7; bytes = 700 } ∷ [];
  publisher = state.publisher;
}

pass_at-Visits : (now : ℕ) (arrivals : List Arrival) → Visits 5 0x0200_000a (pass_at now arrivals)
unfolding count
pass_at-Visits now arrivals = record {
  keys = 0x0200_000a ∷ [];
  iterates = λ value. (refl, refl);
  enough = omega arith;
  once = refl;
  takes = takes;
}

three_counted : packets_of kernel [] 0x0200_000a (all_arrivals passes) ≡ 3
unfolding all_arrivals packets_of counts source classify blocked_kind is_blocked
three_counted = refl

few : 7 + packets_of kernel [] 0x0200_000a (all_arrivals passes) < 2 ^ 64
few = omega (arith, three_counted)

bytes_counted : bytes_of kernel [] 0x0200_000a (all_arrivals passes) ≡ 120
unfolding all_arrivals bytes_of counts source classify blocked_kind is_blocked
bytes_counted = refl

few_bytes : 700 + bytes_of kernel [] 0x0200_000a (all_arrivals passes) < 2 ^ 64
few_bytes = omega (arith, bytes_counted)

rates_delivered_example :
    (m' : Maps kernel) × (st' : Reporter) × (flows : List FlowRate) × (run_passes kernel 5 maps
        reporter passes
      ≡ some (m', st'))
    × (stream 5 st'.publisher.streams ≡ stream 5 reporter.publisher.streams ++ map flow_json flows)
    × (length (rates_of 0x0200_000a flows) ≡ 2)
    × Accounts
        (period 5)
        2
        (pps_total (rates_of 0x0200_000a flows))
        (packets_of kernel [] 0x0200_000a (all_arrivals passes))
    × Accounts
        (period 5)
        2
        (bps_total (rates_of 0x0200_000a flows))
        (bytes_of kernel [] 0x0200_000a (all_arrivals passes))
rates_delivered_example =
    rates_delivered kernel 5 0x0200_000a 5 maps reporter passes known refl few few_bytes
      (unfold find_cache in refl) client
      (pass_at-Visits 100 (arrival ∷ arrival ∷ []), (pass_at-Visits 105 (arrival ∷ []), tt))
