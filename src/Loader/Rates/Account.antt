-- ===== src/Loader/Rates/Account.antt =====
-- The rates reported for a source account for the growth of its counters.
use ebpf_nids.Prelude.{
  ℕ, suc, ◌+◌, ◌-◌, ◌*◌, ◌/◌, ◌%◌, ◌≤◌, ◌<◌, ◌≡◌, Bool, true, Option, none, some, List, [], ◌∷◌,
  arith, ◌==◌, length, if◌then◌else◌,
}
use native.Mathlib.Nat.{div-add-mod}
use ebpf_nids.Kernel.{FlowStats}
use ebpf_nids.Loader.Json.{FlowRate}
use ebpf_nids.Loader.Rates.{
  IpCache, find_cache, find_or_create_cache, write_cache, delta, period, report_flow_rate,
}

pub find_cache-write_cache :
    (head : List IpCache) (ip pkts bytes j : ℕ) (p : IpCache)
    → find_cache head ip ≡ some p
    → find_cache (write_cache head ip pkts bytes) j ≡ (
        if ip == j
        then some (record { ip = ip; pkts = pkts; bytes = bytes })
        else find_cache head j)
unfolding find_cache write_cache
find_cache-write_cache [] ip pkts bytes j p h = cc
find_cache-write_cache (q ∷ head) ip pkts bytes j p h =
    ground (arith, find_cache-write_cache head ip pkts bytes j p)

-- The successive readings of one source's counters, each with its time, and the reports for them.
pub record Reading : Type 0 where
  pub now : ℕ
  pub stats : FlowStats

pub run_reports : ℕ → List IpCache → ℕ → List Reading → List (Option FlowRate)
run_reports interval head ip [] = []
run_reports interval head ip (r ∷ rs) =
    let s = report_flow_rate interval r.now true head ip r.stats in
    s.1 ∷ run_reports interval s.0 ip rs

abbrev pps_of : Option FlowRate → ℕ
pps_of none = 0
pps_of (some r) = r.pps

abbrev bps_of : Option FlowRate → ℕ
bps_of none = 0
bps_of (some r) = r.bps

pub sum_pps : List (Option FlowRate) → ℕ
sum_pps [] = 0
sum_pps (r ∷ rs) = pps_of r + sum_pps rs

pub sum_bps : List (Option FlowRate) → ℕ
sum_bps [] = 0
sum_bps (r ∷ rs) = bps_of r + sum_bps rs

-- Counters that never go back, from the given ones on.
abbrev pub Ascending : ℕ → ℕ → List Reading → Type 0
Ascending p b [] = Unit {0}
Ascending p b (r ∷ rs) =
    (p ≤ r.stats.pkt_count)
    × (b ≤ r.stats.byte_count)
    × Ascending r.stats.pkt_count r.stats.byte_count rs

unfoldable pub last_pkts : ℕ → List Reading → ℕ
last_pkts p [] = p
last_pkts p (r ∷ rs) = last_pkts r.stats.pkt_count rs

unfoldable pub last_bytes : ℕ → List Reading → ℕ
last_bytes b [] = b
last_bytes b (r ∷ rs) = last_bytes r.stats.byte_count rs

-- `rate * d` is `growth`, but for less than `d` in each of `n` reports.
pub record Accounts (d n rate growth : ℕ) : Type 0 where
  pub at_most : rate * d ≤ growth
  pub at_least : growth ≤ rate * d + n * (d - 1)

pub Accounts-step :
    (d n rate old cur last : ℕ)
    → 0 < d
    → old ≤ cur
    → cur ≤ last
    → Accounts d n rate (last - cur)
    → Accounts d (suc n) (delta cur old / d + rate) (last - old)
Accounts-step d n rate old cur last hd h k a =
    let x = delta cur old in
    let grown : x ≡ cur - old = ground arith in
    let split = div-add-mod x d in
    let rem : x % d < d = omega arith in
    record {
      at_most = omega (arith, split, grown, rem);
      at_least = omega (arith, split, grown, rem);
    }

pub report-known :
    (interval now : ℕ) (alloc : Bool) (head : List IpCache) (ip : ℕ) (cur : FlowStats) (p : IpCache)
    → find_cache head ip ≡ some p
    → (find_cache (report_flow_rate interval now alloc head ip cur).0 ip
        ≡ some (record { ip = ip; pkts = cur.pkt_count; bytes = cur.byte_count }))
      × ((report_flow_rate interval now alloc head ip cur).1
          ≡ some (record {
            ip = ip;
            pps = delta cur.pkt_count p.pkts / period interval;
            bps = delta cur.byte_count p.bytes / period interval;
            total_pkts = cur.pkt_count;
            total_bytes = cur.byte_count;
            timestamp = now;
          }))
unfolding report_flow_rate find_or_create_cache
report-known interval now alloc head ip cur p h =
    (ground (arith, find_cache-write_cache head ip cur.pkt_count cur.byte_count ip p), ground arith)

pkts-le-last : (p b : ℕ) (rs : List Reading) → Ascending p b rs → p ≤ last_pkts p rs
unfolding last_pkts
pkts-le-last p b [] h = omega arith
pkts-le-last p b (r ∷ rs) h =
    omega (arith, h.0, pkts-le-last r.stats.pkt_count r.stats.byte_count rs h.2)

bytes-le-last : (p b : ℕ) (rs : List Reading) → Ascending p b rs → b ≤ last_bytes b rs
unfolding last_bytes
bytes-le-last p b [] h = omega arith
bytes-le-last p b (r ∷ rs) h =
    omega (arith, h.1, bytes-le-last r.stats.pkt_count r.stats.byte_count rs h.2)

pub period-pos : (interval : ℕ) → 0 < period interval
period-pos interval = ground arith

-- Where the counters of a source that the cache holds never go back, the packet and byte rates of
-- its reports, each times the reporting interval, add up to the growth of the counters since the
-- cached values, but for what the integer divisions lose: less than one interval's worth in each
-- report.
pub reports_account :
    (interval : ℕ) (head : List IpCache) (ip : ℕ) (p : IpCache) (rs : List Reading)
    → find_cache head ip ≡ some p
    → Ascending p.pkts p.bytes rs
    → Accounts
        (period interval)
        (length rs)
        (sum_pps (run_reports interval head ip rs))
        (last_pkts p.pkts rs - p.pkts)
      × Accounts
          (period interval)
          (length rs)
          (sum_bps (run_reports interval head ip rs))
          (last_bytes p.bytes rs - p.bytes)
unfolding run_reports sum_pps sum_bps last_pkts last_bytes
reports_account interval head ip p [] h up = (omega arith, omega arith)
reports_account interval head ip p (r ∷ rs) h up =
    let (kept, told) = report-known interval r.now true head ip r.stats p h in
    let next : IpCache = record { ip = ip; pkts = r.stats.pkt_count; bytes = r.stats.byte_count } in
    let s = report_flow_rate interval r.now true head ip r.stats in
    let (packets, bytes) = reports_account interval s.0 ip next rs kept up.2 in
    rw told (
      Accounts-step (period interval) (length rs) _ p.pkts r.stats.pkt_count _ (period-pos interval)
          up.0 (pkts-le-last r.stats.pkt_count r.stats.byte_count rs up.2) packets,
      Accounts-step (period interval) (length rs) _ p.bytes r.stats.byte_count _
          (period-pos interval) up.1 (bytes-le-last r.stats.pkt_count r.stats.byte_count rs up.2)
          bytes,
    )

-- The first report of a source says 0 for both rates, whatever its counters, and the cache holds
-- the counters afterwards; where there is no memory nothing is reported and the cache stays.
pub first_report :
    (interval now : ℕ) (alloc : Bool) (head : List IpCache) (ip : ℕ) (cur : FlowStats)
    → find_cache head ip ≡ none
    → report_flow_rate interval now alloc head ip cur ≡ (
        if alloc
        then (
          record { ip = ip; pkts = cur.pkt_count; bytes = cur.byte_count } ∷ head,
          some (record {
            ip = ip;
            pps = 0;
            bps = 0;
            total_pkts = cur.pkt_count;
            total_bytes = cur.byte_count;
            timestamp = now;
          }),
        )
        else (head, none))
unfolding report_flow_rate find_or_create_cache
first_report interval now alloc head ip cur h = ground arith
