-- ===== src/Pipeline/Flows/Visit.antt =====
-- What one pass of read_and_report_stats of project_submit/ebpf_control/src/loader.c over the
-- statistics map hands to a client.
use mathlib.Core.List.{foldl}
use mathlib.Core.Path.{subst}
use ebpf_nids.Prelude.{
  ℕ, ◌+◌, ◌-◌, ◌/◌, ◌≤◌, ◌≡◌, refl, sym, ap, ◌∙◌, false, some, List, [], ◌∷◌, arith, ◌==◌, ==_iff,
  eq_refl, Bool-cases, Option-cases, inl, inr,
}
use ebpf_nids.Kernel.{FlowStats}
use ebpf_nids.Loader.Clients.Conserve.{count}
use ebpf_nids.Loader.Rates.{find_cache, delta, period, report_flow_rate}
use ebpf_nids.Loader.Rates.Account.{Accounts, Accounts-step, period-pos, report-known}
use ebpf_nids.Loader.Stats.{Reporter, World, MapView, report_source, report_key}
use ebpf_nids.Pipeline.{TakesAll, IsClient}
use ebpf_nids.Pipeline.Flows.{
  rates_of, pps_total, bps_total, cache_of, listed, Tells, Tells-refl, Tells-trans, announce-lines,
  other_report,
}

-- One report accounts for the growth since the cached value.
one_report : (d old cur : ℕ) → 1 ≤ d → old ≤ cur → Accounts d 1 (delta cur old / d + 0) (cur - old)
one_report d old cur pos up =
    Accounts-step d 0 0 old cur cur pos up (omega arith)
      (record { at_most = omega arith; at_least = omega arith })

module _ (fd src : ℕ) (w : World) (interval : ℕ) (m : MapView) (takes : TakesAll w.net fd) where
  key_other :
      (st : Reporter) (key : ℕ) (p : FlowStats)
      → (key == src) ≡ false
      → IsClient fd st.publisher
      → find_cache st.cache src ≡ some (cache_of src p)
      → Tells fd src interval 0 p p st (report_key w interval m st key)
  unfolding report_key report_source pps_total bps_total
  key_other st key p ne client cached = elim (Option-cases (m.value key)) [
    | inl gone ↦ rw (gone, report_key) (Tells-refl fd src interval p st client cached)
    | inr (v, found) ↦
        rw (found, report_key)
          (let r = report_flow_rate interval (w.time key) (w.alloc key) st.cache key v in
            let (lines, still, same) = announce-lines w.net fd r.0 st.publisher r.1 takes client in
            let (kept, quiet) =
              other_report interval (w.time key) (w.alloc key) st.cache key src v ne in
            record {
              flows = listed r.1;
              lines = lines;
              client = still;
              cached = ap (λ c. find_cache c src) same ∙ kept ∙ cached;
              packets = rw quiet (record { at_most = omega arith; at_least = omega arith });
              bytes = rw quiet (record { at_most = omega arith; at_least = omega arith });
              reports = rw quiet refl;
              more_packets = omega arith;
              more_bytes = omega arith;
            })
  ]

  key_source :
      (st : Reporter) (p v : FlowStats)
      → m.value src ≡ some v
      → p.pkt_count ≤ v.pkt_count
      → p.byte_count ≤ v.byte_count
      → IsClient fd st.publisher
      → find_cache st.cache src ≡ some (cache_of src p)
      → Tells fd src interval 1 p v st (report_key w interval m st src)
  unfolding report_key report_source pps_total bps_total rates_of listed
  key_source st p v found up up' client cached =
      rw (found, report_key)
        (let r = report_flow_rate interval (w.time src) (w.alloc src) st.cache src v in
          let (lines, still, same) = announce-lines w.net fd r.0 st.publisher r.1 takes client in
          let (kept, told) =
            report-known interval (w.time src) (w.alloc src) st.cache src v (cache_of src p)
              cached in
          let pos = period-pos interval in
          record {
            flows = listed r.1;
            lines = lines;
            client = still;
            cached = ap (λ c. find_cache c src) same ∙ kept;
            packets = rw told (
                rw (eq_refl src)
                  (one_report (period interval) p.pkt_count v.pkt_count (omega (arith, pos)) up));
            bytes = rw told (
                rw (eq_refl src) (
                  one_report (period interval) p.byte_count v.byte_count (omega (arith, pos)) up'));
            reports = rw told (rw (eq_refl src) refl);
            more_packets = up;
            more_bytes = up';
          })

  -- Keys of other sources.
  unvisited :
      (ks : List ℕ) (st : Reporter) (p : FlowStats)
      → IsClient fd st.publisher
      → find_cache st.cache src ≡ some (cache_of src p)
      → count src ks ≡ 0
      → Tells fd src interval 0 p p st (foldl (report_key w interval m) st ks)
  unfolding count
  unvisited [] st p client cached absent = Tells-refl fd src interval p st client cached
  unvisited (key ∷ ks) st p client cached absent =
      let a = key_other st key p (ground (arith, absent)) client cached in
      Tells-trans fd src interval a
        (unvisited ks (report_key w interval m st key) p a.client a.cached (ground (arith, absent)))

  -- The keys in the kernel's order, the source's once among them: one report is about it.
  pub visited :
      (ks : List ℕ) (st : Reporter) (p v : FlowStats)
      → m.value src ≡ some v
      → p.pkt_count ≤ v.pkt_count
      → p.byte_count ≤ v.byte_count
      → IsClient fd st.publisher
      → find_cache st.cache src ≡ some (cache_of src p)
      → count src ks ≡ 1
      → Tells fd src interval 1 p v st (foldl (report_key w interval m) st ks)
  unfolding count
  visited [] st p v found up up' client cached once = absurd (omega (arith, once))
  visited (key ∷ ks) st p v found up up' client cached once = elim (Bool-cases (key == src)) [
    | inr other ↦
        let a = key_other st key p other client cached in
        Tells-trans fd src interval a (
          visited ks (report_key w interval m st key) p v found up up' a.client a.cached
            (ground (arith, once, other)))
    | inl same ↦
        let rest : count src ks ≡ 0 = ground (arith, once, same) in
        subst (λ x. Tells fd src interval 1 p v st (foldl (report_key w interval m) st (x ∷ ks)))
          (sym ((==_iff key src).0 same))
          (let a = key_source st p v found up up' client cached in
            Tells-trans fd src interval a
              (unvisited ks (report_key w interval m st src) v a.client a.cached rest))
  ]
