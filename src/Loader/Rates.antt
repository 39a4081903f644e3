-- ===== src/Loader/Rates.antt =====
-- The per-source cache and the rates of project_submit/ebpf_control/src/loader.c:
-- `find_or_create_cache` and the computation of `report_flow_rate`.
pub mod Account
use ebpf_nids.Prelude.{
  ℕ, ◌-◌, ◌/◌, Bool, true, false, Option, none, some, List, [], ◌∷◌, ltb, leb, ◌==◌, if◌then◌else◌,
}
use ebpf_nids.Kernel.{FlowStats}
use ebpf_nids.Loader.Json.{FlowRate}

-- `struct ip_cache`; the chain of `next` pointers from `cache_head` is the list.
pub record IpCache : Type 0 where
  pub ip : ℕ
  pub pkts : ℕ
  pub bytes : ℕ

unfoldable pub find_cache : List IpCache → ℕ → Option IpCache
find_cache [] ip = none
find_cache (p ∷ ps) ip = if p.ip == ip then some p else find_cache ps ip

-- The entry that was there, the chain with a new head, or the null pointer.
pub data Found : Type 0 where
  found : IpCache → Found
  created : List IpCache → Found
  no_memory : Found

-- `alloc` says whether `calloc` has memory.
unfoldable pub find_or_create_cache : List IpCache → Bool → ℕ → ℕ → ℕ → Found
find_or_create_cache head alloc ip pkts bytes = elim (find_cache head ip) [
  | some p ↦ found p
  | none ↦
      if alloc then created (record { ip = ip; pkts = pkts; bytes = bytes } ∷ head) else no_memory
]

-- A write of both counters through the pointer that was found: the first entry of the source.
unfoldable pub write_cache : List IpCache → ℕ → ℕ → ℕ → List IpCache
write_cache [] ip pkts bytes = []
write_cache (p ∷ ps) ip pkts bytes =
    if p.ip == ip
    then record { ip = ip; pkts = pkts; bytes = bytes } ∷ ps
    else p ∷ write_cache ps ip pkts bytes

-- `cur >= old ? cur - old : 0`
abbrev pub delta : ℕ → ℕ → ℕ
delta cur old = if leb old cur then cur - old else 0

-- The divisor of both rates.
abbrev pub period : ℕ → ℕ
period interval = if ltb 0 interval then interval else 1

-- The cache after the call, and what is reported; `none` where there was no memory.
unfoldable pub report_flow_rate :
    ℕ → ℕ → Bool → List IpCache → ℕ → FlowStats → List IpCache × Option FlowRate
report_flow_rate interval now alloc head ip cur =
    elim (find_or_create_cache head alloc ip cur.pkt_count cur.byte_count) [
      | no_memory ↦ (head, none)
      | created head' ↦ (
        head',
        some (record {
          ip = ip;
          pps = 0;
          bps = 0;
          total_pkts = cur.pkt_count;
          total_bytes = cur.byte_count;
          timestamp = now;
        }),
      )
      | found p ↦ (
        write_cache head ip cur.pkt_count cur.byte_count,
        some (record {
          ip = ip;
          pps = delta cur.pkt_count p.pkts / period interval;
          bps = delta cur.byte_count p.bytes / period interval;
          total_pkts = cur.pkt_count;
          total_bytes = cur.byte_count;
          timestamp = now;
        }),
      )
    ]
