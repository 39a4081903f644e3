-- ===== src/Xdp/Tests.antt =====
-- Schedule of the data plane on packets, and its theorems at concrete inputs.
use ebpf_nids.Prelude.{
  ℕ, ◌+◌, ◌%◌, ◌^◌, ◌/◌, ◌≡◌, refl, some, List, [], ◌∷◌, ◌++◌, arith, length, replicate,
  if◌then◌else◌,
}
use ebpf_nids.Kernel.{Kernel, Maps, FlowStats, PortBitmap, AlertEvent, add64, syn_threshold, submit}
use ebpf_nids.Kernel.Tables.{table, ring}
use ebpf_nids.Prelude.Bits.{popcount}
use ebpf_nids.Xdp.Packet.{Bytes, load, load16, load32}
use ebpf_nids.Xdp.Flow.{update_flow_stats}
use ebpf_nids.Xdp.Syn.{check_syn_flood}
use ebpf_nids.Xdp.Firewall.{drop, pass, xdp_firewall}
use ebpf_nids.Xdp.Firewall.Verdict.{classify, passed, blocked_kind, xdp_firewall_lem}
use ebpf_nids.Xdp.Firewall.Totals.{Arrival, run_packets, packets_of, bytes_of, flow_totals}
use ebpf_nids.Xdp.Syn.Period.{Syn, expected, run_syns, syn_flood_period}
use ebpf_nids.Xdp.Scan.{empty_bitmap, mark, total_ports, clear, check_port_scan}
use ebpf_nids.Xdp.Scan.Refine
use ebpf_nids.Xdp.Scan.Refine.{
  Probe, run_probes, Knows, remembered, Represents, clear-Represents, port_scan_refines,
}
use ebpf_nids.Xdp.Filter.{xdp_blacklist_filter}
use ebpf_nids.Xdp.Filter.Agrees.{action, action-xdp_firewall}
use ebpf_nids.Xdp.Races.{
  Shared, load_counter, store_counter, Schedule, begin, loads, stores, at_rest,
}
use Prim.Native.Nat.{bit_or}
use ebpf_nids.Xdp.Races.Words.{
  SharedWord, load_word, store_word, Marking, no_marks, word_loaded, word_stored, word_at_rest,
  HasOnly, word_race,
}
use ebpf_nids.Xdp.Races.Lost.{Within, counter_race, lost_update}
use ebpf_nids.Xdp.Earlier.{earlier_firewall}
use ebpf_nids.Xdp.Earlier.Same.{earlier_firewall-same}
use ebpf_nids.Xdp.Parse.{xdp_parse_ip, count_packets}
use ebpf_nids.Xdp.Parse.Prints.{count_packets_lem}

abbrev kernel : Kernel
kernel = record {
  blacklist = table ℕ 4;
  flow_stats = table FlowStats 4;
  syn_counter = table ℕ 4;
  port_scan_map = table PortBitmap 4;
  alert_rb = ring 8;
}

-- 10.0.0.1 is blocked, and 10.0.0.2 has been seen.
abbrev known : FlowStats
known = record { pkt_count = 7; byte_count = 700 }

abbrev maps : Maps kernel
maps = record {
  blacklist = (0x0100_000a, 1) ∷ [];
  flow_stats = (0x0200_000a, known) ∷ [];
  syn_counter = (0x0200_000a, 100) ∷ [];
  port_scan_map = (0x0200_000a, empty_bitmap) ∷ [];
  alert_rb = [];
}

-- A SYN packet from 10.0.0.`last` to port 80 of 10.0.0.9.
abbrev syn_packet : ℕ → Bytes
syn_packet last =
    replicate 12 0
    ++ (8 ∷ 0 ∷ [])
    ++ (0x45 ∷ replicate 8 0)
    ++ (6 ∷ 0 ∷ 0 ∷ 10 ∷ 0 ∷ 0 ∷ last ∷ 10 ∷ 0 ∷ 0 ∷ 9 ∷ [])
    ++ (0 ∷ 99 ∷ 0 ∷ 80 ∷ replicate 9 0)
    ++ (2 ∷ replicate 6 0)

abbrev arrivals : List Arrival
arrivals =
    record { packet = syn_packet 2; syn_time = 5; scan_time = 6 }
    ∷ record { packet = syn_packet 1; syn_time = 7; scan_time = 8 }
    ∷ []

abbrev alert : AlertEvent
alert = record { src_ip = 0x0200_000a; dst_ip = 0x0900_000a; alert_type = 1; timestamp = 5 }

blocked_packet_dropped : xdp_firewall kernel maps (syn_packet 1) 5 6 ≡ some (drop, maps)
unfolding xdp_firewall load16 load load32
blocked_packet_dropped = refl

flooding_packet_reported :
    xdp_firewall kernel maps (syn_packet 2) 5 6
    ≡ some (
      pass,
      record maps {
        flow_stats = (0x0200_000a, record { pkt_count = 8; byte_count = 754 }) ∷ [];
        syn_counter = (0x0200_000a, 0) ∷ [];
        port_scan_map = (0x0200_000a, 0 ∷ 0x1_0000 ∷ replicate 14 0) ∷ [];
        alert_rb = alert ∷ [];
      },
    )
unfolding xdp_firewall load16 load load32 update_flow_stats check_syn_flood check_port_scan mark
    total_ports clear popcount
flooding_packet_reported = refl

xdp_firewall_lem_example :
    xdp_firewall kernel maps (syn_packet 1) 5 6
    ≡ some (
        if blocked_kind kernel maps.blacklist (classify (syn_packet 1))
        then (drop, maps)
        else (pass, passed kernel maps 54 5 6 (classify (syn_packet 1))))
xdp_firewall_lem_example = xdp_firewall_lem kernel maps (syn_packet 1) 5 6

flow_totals_example :
    (m' : Maps kernel) × (run_packets kernel maps arrivals ≡ some m')
    × (m'.blacklist ≡ maps.blacklist)
    × (kernel.flow_stats.lookup m'.flow_stats 0x0200_000a
        ≡ some (record {
          pkt_count = (7 + packets_of kernel maps.blacklist 0x0200_000a arrivals) % 2 ^ 64;
          byte_count = (700 + bytes_of kernel maps.blacklist 0x0200_000a arrivals) % 2 ^ 64;
        }))
flow_totals_example =
    flow_totals kernel maps arrivals 0x0200_000a known refl (omega arith) (omega arith)

abbrev syns : List Syn
syns = record { dst_ip = 1; time = 2 } ∷ record { dst_ip = 3; time = 4 } ∷ []

syn_flood_period_example :
    let counters = kernel.syn_counter in
    let s = run_syns counters kernel.alert_rb (maps.syn_counter, []) 0x0200_000a syns in
    (counters.lookup s.0 0x0200_000a ≡ some ((100 + 2) % (syn_threshold + 1)))
    × (s.1 ≡ submit kernel.alert_rb [] (expected 0x0200_000a 100 syns))
    × (length (expected 0x0200_000a 100 syns) ≡ (100 + 2) / (syn_threshold + 1))
syn_flood_period_example =
    syn_flood_period kernel.syn_counter kernel.alert_rb maps.syn_counter [] 0x0200_000a 100 syns
      refl (omega arith)

abbrev probes : List Probe
probes =
    record { dst_ip = 1; dst_port = 22; time = 2 }
    ∷ record { dst_ip = 1; dst_port = 80; time = 4 }
    ∷ []

empty-Represents : Represents empty_bitmap []
unfolding clear
empty-Represents = clear-Represents empty_bitmap refl

port_scan_refines_example :
    let s =
      run_probes kernel.port_scan_map kernel.alert_rb (maps.port_scan_map, []) 0x0200_000a probes in
    Knows kernel.port_scan_map kernel.alert_rb s.0 0x0200_000a (remembered [] probes)
    × (s.1 ≡ submit kernel.alert_rb [] (Refine.expected 0x0200_000a [] probes))
port_scan_refines_example =
    port_scan_refines kernel.port_scan_map kernel.alert_rb maps.port_scan_map [] 0x0200_000a []
      probes (record { bitmap = empty_bitmap; found = refl; represents = empty-Represents })

-- CPU 0 counts a packet of 60 bytes while CPU 1 has loaded the counter.
abbrev counted_once : Shared
counted_once = store_counter (load_counter (load_counter (at_rest 100) 1 40) 0 60) 0 100 60

counted_once-Schedule : Schedule (at_rest 100) (0 + 60) counted_once
unfolding load_counter store_counter
counted_once-Schedule = stores 0 100 60 (loads 0 60 (loads 1 40 begin refl) refl) refl

counter_race_example : Within 100 (0 + 60) counted_once.counter
counter_race_example = counter_race counted_once-Schedule (omega arith)

lost_update_example : (t : Shared) × Schedule (at_rest 100) (60 + 40) t × (t.counter ≡ add64 100 40)
lost_update_example = lost_update 100 60 40

action-xdp_firewall_example :
    action kernel maps (xdp_firewall kernel maps (syn_packet 1) 1000 1001)
    ≡ xdp_blacklist_filter kernel.blacklist maps.blacklist (syn_packet 1)
action-xdp_firewall_example = action-xdp_firewall kernel maps (syn_packet 1) 1000 1001

filter_drops : xdp_blacklist_filter kernel.blacklist maps.blacklist (syn_packet 1) ≡ some drop
unfolding xdp_blacklist_filter load16 load32 load
filter_drops = refl

earlier_firewall-same_example :
    earlier_firewall kernel maps (syn_packet 1) 1000 1001
    ≡ xdp_firewall kernel maps (syn_packet 1) 1000 1001
earlier_firewall-same_example = earlier_firewall-same kernel maps (syn_packet 1) 1000 1001

prints_source : xdp_parse_ip (syn_packet 2) ≡ some (pass, 0x0200_000a ∷ [])
unfolding xdp_parse_ip load16 load32 load
prints_source = refl

counts : count_packets 3 (some 7) ≡ some 10
counts = count_packets_lem 3 7 (omega arith)

-- CPU 0 marks port 3 in a word that has port 1.
abbrev marked_once : SharedWord
marked_once = store_word (load_word (word_at_rest 2) 0 3) 0 2 3

marked_once-Marking : Marking (word_at_rest 2) (3 ∷ []) marked_once
unfolding load_word
marked_once-Marking = word_stored 0 2 3 (word_loaded 0 3 no_marks refl) refl

word_race_example :
    HasOnly 2 (3 ∷ []) marked_once.word
    × ((u : SharedWord) × Marking (word_at_rest 2) (5 ∷ 3 ∷ []) u × (u.word ≡ bit_or 2 (2 ^ 5)))
word_race_example = word_race 3 5 marked_once-Marking
