-- ===== src/Loader/Stats.antt =====
-- `read_and_report_stats` of project_submit/ebpf_control/src/loader.c, with the sending that
-- `report_flow_rate` does.
pub mod Visits
pub mod Settles
use ebpf_nids.Prelude.{ℕ, zero, suc, Bool, Option, none, some, List, [], ◌∷◌}
use ebpf_nids.Kernel.{FlowStats}
use ebpf_nids.Loader.Json.{FlowRate, flow_json}
use ebpf_nids.Loader.Publish.{Publisher, Network, publish}
use ebpf_nids.Loader.Rates.{IpCache, report_flow_rate}

pub record Reporter : Type 0 where
  pub cache : List IpCache
  pub publisher : Publisher

-- What the rest of the world answers: whether `calloc` has memory and what `time` says, at the
-- report for a source, and `send`.
pub record World : Type 0 where
  pub alloc : ℕ → Bool
  pub time : ℕ → ℕ
  pub net : Network

unfoldable pub announce : Network → List IpCache → Publisher → Option FlowRate → Reporter
announce net cache p none = record { cache = cache; publisher = p }
announce net cache p (some r) = record { cache = cache; publisher = publish net p (flow_json r) }

-- All of `report_flow_rate`.
unfoldable pub report_source : World → ℕ → Reporter → ℕ → FlowStats → Reporter
unfolding announce
report_source w interval st ip cur =
    let r = report_flow_rate interval (w.time ip) (w.alloc ip) st.cache ip cur in
    announce w.net r.0 st.publisher r.1

-- The map as `bpf_map_get_next_key` and `bpf_map_lookup_elem` show it during the call: the key
-- behind a key (behind NULL, the first one), and the value of a key unless it is gone.
pub record MapView : Type 0 where
  pub next_key : Option ℕ → Option ℕ
  pub value : ℕ → Option FlowStats

unfoldable pub report_key : World → ℕ → MapView → Reporter → ℕ → Reporter
report_key w interval m st key = elim (m.value key) [
  | some v ↦ report_source w interval st key v
  | none ↦ st
]

-- The loop; `none` says that the fuel ran out.
unfoldable pub read_loop : ℕ → World → ℕ → MapView → Reporter → ℕ → Option Reporter
read_loop zero w interval m st key = none
read_loop (suc fuel) w interval m st key =
    let st' = report_key w interval m st key in
    elim (m.next_key (some key)) [
      | some key' ↦ read_loop fuel w interval m st' key'
      | none ↦ some st'
    ]

unfoldable pub read_and_report_stats : ℕ → World → ℕ → MapView → Reporter → Option Reporter
read_and_report_stats fuel w interval m st = elim (m.next_key none) [
  | none ↦ some st
  | some key ↦ read_loop fuel w interval m st key
]
