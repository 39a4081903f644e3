-- ===== src/Pipeline/Traffic.antt =====
-- From packets to rates: what update_flow_stats of
-- project_submit/ebpf_control/src/xdp_blacklist.bpf.c counts, and what report_flow_rate of
-- project_submit/ebpf_control/src/loader.c makes of it at each reading.
use ebpf_nids.Prelude.{
  ℕ, suc, ◌+◌, ◌-◌, ◌%◌, ◌^◌, ◌<◌, ◌≡◌, refl, ap, Option, some, List, [], ◌∷◌, arith, length, ◌>>=◌,
}
use mathlib.Core.Path.{subst}
use ebpf_nids.Kernel.{Kernel, Maps, FlowStats}
use ebpf_nids.Xdp.Firewall.Totals.{Arrival, run_packets, packets_of, bytes_of, flow_totals}
use ebpf_nids.Loader.Rates.{IpCache, find_cache, period}
use ebpf_nids.Loader.Rates.Account.{
  Reading, run_reports, sum_pps, sum_bps, Ascending, last_pkts, last_bytes, Accounts,
  reports_account,
}

-- The packets that arrive before a reading, and the reading's time.
pub record Batch : Type 0 where
  pub arrivals : List Arrival
  pub now : ℕ

module _ (k : Kernel) (src : ℕ) where
  -- What the loader reads of the source's entry: after each batch of packets once.
  unfoldable pub observe : Maps k → List Batch → Option (List Reading)
  observe m [] = some []
  observe m (b ∷ bs) = do
    m' ← run_packets k m b.arrivals
    s ← k.flow_stats.lookup m'.flow_stats src
    rest ← observe m' bs
    some (record { now = b.now; stats = s } ∷ rest)

  -- The packets of the source that are to be counted, and their bytes.
  unfoldable pub packets_in : k.blacklist.State → List Batch → ℕ
  packets_in b [] = 0
  packets_in b (x ∷ xs) = packets_of k b src x.arrivals + packets_in b xs

  unfoldable pub bytes_in : k.blacklist.State → List Batch → ℕ
  bytes_in b [] = 0
  bytes_in b (x ∷ xs) = bytes_of k b src x.arrivals + bytes_in b xs

  -- Readings that go up from the counters `s` by what was counted.
  record Observed (m : Maps k) (bs : List Batch) (s : FlowStats) (rs : List Reading) : Type 0 where
    read : observe m bs ≡ some rs
    many : length rs ≡ length bs
    ascending : Ascending s.pkt_count s.byte_count rs
    packets : last_pkts s.pkt_count rs ≡ s.pkt_count + packets_in m.blacklist bs
    bytes : last_bytes s.byte_count rs ≡ s.byte_count + bytes_in m.blacklist bs

  observe-Observed :
      (m : Maps k) (bs : List Batch) (s : FlowStats)
      → k.flow_stats.lookup m.flow_stats src ≡ some s
      → s.pkt_count + packets_in m.blacklist bs < 2 ^ 64
      → s.byte_count + bytes_in m.blacklist bs < 2 ^ 64
      → (rs : List Reading) × Observed m bs s rs
  unfolding observe packets_in bytes_in last_pkts last_bytes
  observe-Observed m [] s e hp hb = (
    [],
    record { read = refl; many = refl; ascending = tt; packets = omega arith; bytes = omega arith },
  )
  observe-Observed m (b ∷ bs) s e hp hb =
      let np = packets_of k m.blacklist src b.arrivals in
      let nb = bytes_of k m.blacklist src b.arrivals in
      let (m', ran, same, found) =
        flow_totals k m b.arrivals src s e (omega (arith, hp)) (omega (arith, hb)) in
      let t : FlowStats = record {
        pkt_count = (s.pkt_count + np) % 2 ^ 64;
        byte_count = (s.byte_count + nb) % 2 ^ 64;
      } in
      let tp : t.pkt_count ≡ s.pkt_count + np = omega (arith, hp) in
      let tb : t.byte_count ≡ s.byte_count + nb = omega (arith, hb) in
      let sp : packets_in m'.blacklist bs ≡ packets_in m.blacklist bs =
        ap (λ (x : k.blacklist.State). packets_in x bs) same in
      let sb : bytes_in m'.blacklist bs ≡ bytes_in m.blacklist bs =
        ap (λ (x : k.blacklist.State). bytes_in x bs) same in
      let (rs, o) =
        observe-Observed m' bs t found (omega (arith, hp, tp, sp)) (omega (arith, hb, tb, sb)) in
      (
        record { now = b.now; stats = t } ∷ rs,
        record {
          read = rw (ran, observe) (rw found (rw o.read refl));
          many = ap suc o.many;
          ascending = (omega (arith, tp), omega (arith, tb), o.ascending);
          packets = omega (arith, o.packets, tp, sp);
          bytes = omega (arith, o.bytes, tb, sb);
        },
      )

  -- Packets arrive in batches, and after each the loader reads the entry of a source and reports
  -- it. Where the source has an entry from the start, the cache holds its counters, and these do not
  -- overflow: the packet and byte rates reported, each times the reporting interval, add up to the number
  -- of the source's packets that the data plane counted and to that of their bytes, but for what the divisions lose, less than
  -- one interval's worth in each report.
  pub traffic_reported :
      (m : Maps k) (bs : List Batch) (s : FlowStats) (interval : ℕ) (head : List IpCache)
      → k.flow_stats.lookup m.flow_stats src ≡ some s
      → s.pkt_count + packets_in m.blacklist bs < 2 ^ 64
      → s.byte_count + bytes_in m.blacklist bs < 2 ^ 64
      → find_cache head src ≡ some (record { ip = src; pkts = s.pkt_count; bytes = s.byte_count })
      → (rs : List Reading) × (observe m bs ≡ some rs)
        × Accounts
            (period interval)
            (length bs)
            (sum_pps (run_reports interval head src rs))
            (packets_in m.blacklist bs)
        × Accounts
            (period interval)
            (length bs)
            (sum_bps (run_reports interval head src rs))
            (bytes_in m.blacklist bs)
  traffic_reported m bs s interval head e hp hb cached =
      let (rs, o) = observe-Observed m bs s e hp hb in
      let (packets, bytes) =
        reports_account interval head src
          (record { ip = src; pkts = s.pkt_count; bytes = s.byte_count }) rs cached o.ascending in
      let gp : last_pkts s.pkt_count rs - s.pkt_count ≡ packets_in m.blacklist bs =
        omega (arith, o.packets) in
      let gb : last_bytes s.byte_count rs - s.byte_count ≡ bytes_in m.blacklist bs =
        omega (arith, o.bytes) in
      let account =
        λ (rate : ℕ) (growth growth' : ℕ) (g : growth ≡ growth')
            (a : Accounts (period interval) (length rs) rate growth).
          subst (Accounts (period interval) (length bs) rate) g
            (subst (λ n. Accounts (period interval) n rate growth) o.many a) in
      (rs, o.read, account _ _ _ gp packets, account _ _ _ gb bytes)
