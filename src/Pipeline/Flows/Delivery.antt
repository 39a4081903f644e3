-- ===== src/Pipeline/Flows/Delivery.antt =====
-- From packets to the lines with the rates on a client's connection: the data plane counts in the
-- statistics map, and read_and_report_stats of project_submit/ebpf_control/src/loader.c goes through
-- that map after each batch of packets.
use mathlib.Core.List.{map}
use ebpf_nids.Prelude.{
  ℕ, ◌+◌, ◌%◌, ◌^◌, ◌≤◌, ◌<◌, ◌≡◌, refl, ap, Option, none, some, List, [], ◌∷◌, ◌++◌, arith, length,
  ◌>>=◌,
}
use mathlib.Core.Path.{subst}
use ebpf_nids.Kernel.{Kernel, Maps, FlowStats}
use ebpf_nids.Xdp.Firewall.Totals.{Arrival, run_packets, packets_of, bytes_of, flow_totals}
use ebpf_nids.Loader.Json.{FlowRate, flow_json}
use ebpf_nids.Loader.Clients.Conserve.{count}
use ebpf_nids.Loader.Rates.{find_cache, period}
use ebpf_nids.Loader.Rates.Account.{Accounts}
use ebpf_nids.Loader.Stats.{Reporter, World, MapView, read_and_report_stats}
use ebpf_nids.Loader.Stats.Visits.{Iterates, read_and_report_stats_lem}
use ebpf_nids.Pipeline.{stream, TakesAll, IsClient}
use ebpf_nids.Pipeline.Flows.{
  rates_of, pps_total, bps_total, cache_of, Tells, Tells-refl, Tells-trans,
}
use ebpf_nids.Pipeline.Flows.Visit.{visited}

-- Packets that arrive, and then a pass of the loader over the map: the kernel's order of its keys,
-- and what else the system answers.
pub record Pass : Type 0 where
  pub arrivals : List Arrival
  pub next_key : Option ℕ → Option ℕ
  pub world : World
  pub fuel : ℕ

unfoldable pub all_arrivals : List Pass → List Arrival
all_arrivals [] = []
all_arrivals (b ∷ bs) = b.arrivals ++ all_arrivals bs

-- The pass goes through finitely many keys, of which one is the source's, and the client has room
-- on its connection.
pub record Visits (fd src : ℕ) (b : Pass) : Type 0 where
  pub keys : List ℕ
  pub iterates :
      (value : ℕ → Option FlowStats)
      → Iterates (record { next_key = b.next_key; value = value }) none keys
  pub enough : length keys ≤ b.fuel
  pub once : count src keys ≡ 1
  pub takes : TakesAll b.world.net fd

abbrev pub AllVisit : ℕ → ℕ → List Pass → Type 0
AllVisit fd src [] = Unit {0}
AllVisit fd src (b ∷ bs) = Visits fd src b × AllVisit fd src bs

module _ (k : Kernel) where
  -- The map as the pass sees it: its values are those that the data plane has counted.
  abbrev pub view_of : k.flow_stats.State → Pass → MapView
  view_of m b = record { next_key = b.next_key; value = k.flow_stats.lookup m }

  unfoldable pub run_passes : ℕ → Maps k → Reporter → List Pass → Option (Maps k × Reporter)
  run_passes interval m st [] = some (m, st)
  run_passes interval m st (b ∷ bs) = do
    m' ← run_packets k m b.arrivals
    st' ← read_and_report_stats b.fuel b.world interval (view_of m'.flow_stats b) st
    run_passes interval m' st' bs

  counts-append :
      (b : k.blacklist.State) (src : ℕ) (x y : List Arrival)
      → (packets_of k b src (x ++ y) ≡ packets_of k b src x + packets_of k b src y)
        × (bytes_of k b src (x ++ y) ≡ bytes_of k b src x + bytes_of k b src y)
  unfolding packets_of bytes_of
  counts-append b src [] y = (omega arith, omega arith)
  counts-append b src (p ∷ x) y =
      let (n, l) = counts-append b src x y in (omega (arith, n), omega (arith, l))

  module _ (fd src interval : ℕ) where
    -- The run ends with the source's counters in the map and in the cache, and they have grown by
    -- what the packets count.
    record Watches (m : Maps k) (st : Reporter) (bs : List Pass) (s : FlowStats) : Type 0 where
      maps : Maps k
      reporter : Reporter
      stats : FlowStats
      ran : run_passes interval m st bs ≡ some (maps, reporter)
      tells : Tells fd src interval (length bs) s stats st reporter
      packets : stats.pkt_count ≡ s.pkt_count + packets_of k m.blacklist src (all_arrivals bs)
      bytes : stats.byte_count ≡ s.byte_count + bytes_of k m.blacklist src (all_arrivals bs)

    run_passes-Watches :
        (m : Maps k) (st : Reporter) (bs : List Pass) (s : FlowStats)
        → k.flow_stats.lookup m.flow_stats src ≡ some s
        → s.pkt_count + packets_of k m.blacklist src (all_arrivals bs) < 2 ^ 64
        → s.byte_count + bytes_of k m.blacklist src (all_arrivals bs) < 2 ^ 64
        → find_cache st.cache src ≡ some (cache_of src s)
        → IsClient fd st.publisher
        → AllVisit fd src bs
        → Watches m st bs s
    unfolding run_passes all_arrivals packets_of bytes_of
    run_passes-Watches m st [] s e hp hb cached client v = record {
      maps = m;
      reporter = st;
      stats = s;
      ran = refl;
      tells = Tells-refl fd src interval s st client cached;
      packets = omega arith;
      bytes = omega arith;
    }
    run_passes-Watches m st (b ∷ bs) s e hp hb cached client (v, vs) =
        let np = packets_of k m.blacklist src b.arrivals in
        let nb = bytes_of k m.blacklist src b.arrivals in
        let (pa, ba) = counts-append m.blacklist src b.arrivals (all_arrivals bs) in
        let (m', ran, same, found) =
          flow_totals k m b.arrivals src s e (omega (arith, hp)) (omega (arith, hb)) in
        let t : FlowStats = record {
          pkt_count = (s.pkt_count + np) % 2 ^ 64;
          byte_count = (s.byte_count + nb) % 2 ^ 64;
        } in
        let tp : t.pkt_count ≡ s.pkt_count + np = omega (arith, hp, pa) in
        let tb : t.byte_count ≡ s.byte_count + nb = omega (arith, hb, ba) in
        let sp : packets_of k m'.blacklist src (all_arrivals bs)
            ≡ packets_of k m.blacklist src (all_arrivals bs) =
          ap (λ (x : k.blacklist.State). packets_of k x src (all_arrivals bs)) same in
        let sb : bytes_of k m'.blacklist src (all_arrivals bs)
            ≡ bytes_of k m.blacklist src (all_arrivals bs) =
          ap (λ (x : k.blacklist.State). bytes_of k x src (all_arrivals bs)) same in
        let view = view_of m'.flow_stats b in
        let passed =
          read_and_report_stats_lem b.world interval view v.keys b.fuel st (v.iterates view.value)
            v.enough in
        let told =
          visited fd src b.world interval view v.takes v.keys st s t found (omega (arith, tp))
            (omega (arith, tb)) client cached v.once in
        let rest =
          run_passes-Watches m' _ bs t found (omega (arith, hp, pa, tp, sp))
            (omega (arith, hb, ba, tb, sb)) told.cached told.client vs in
        record {
          maps = rest.maps;
          reporter = rest.reporter;
          stats = rest.stats;
          ran = rw (ran, run_passes) (rw passed rest.ran);
          tells =
              subst (λ n. Tells fd src interval n s rest.stats st rest.reporter) (omega arith)
                (Tells-trans fd src interval told rest.tells);
          packets = omega (arith, rest.packets, pa, tp, sp);
          bytes = omega (arith, rest.bytes, ba, tb, sb);
        }

    -- Packets of any sources arrive in batches, and after each the loader goes through the statistics
    -- map and reports its entries. Where the source has an entry from the start, each pass goes
    -- through finitely many keys and meets the source's once, the cache holds its counters, these do
    -- not overflow, and a client has its slot and room on its connection: the passes end, and the
    -- client is handed the lines of all reports, whole and in order. One report for each pass is
    -- about the source; their packet and byte rates, each times the reporting interval, add up to the
    -- number of the source's packets that the data plane counted and to that of their bytes, but for
    -- what the divisions lose, less than one interval's worth in each report.
    pub rates_delivered :
        (m : Maps k) (st : Reporter) (bs : List Pass) (s : FlowStats)
        → k.flow_stats.lookup m.flow_stats src ≡ some s
        → s.pkt_count + packets_of k m.blacklist src (all_arrivals bs) < 2 ^ 64
        → s.byte_count + bytes_of k m.blacklist src (all_arrivals bs) < 2 ^ 64
        → find_cache st.cache src ≡ some (cache_of src s)
        → IsClient fd st.publisher
        → AllVisit fd src bs
        → (m' : Maps k) × (st' : Reporter) × (flows : List FlowRate) × (run_passes interval m st bs
            ≡ some (m', st'))
          × (stream fd st'.publisher.streams
              ≡ stream fd st.publisher.streams ++ map flow_json flows)
          × (length (rates_of src flows) ≡ length bs)
          × Accounts
              (period interval)
              (length bs)
              (pps_total (rates_of src flows))
              (packets_of k m.blacklist src (all_arrivals bs))
          × Accounts
              (period interval)
              (length bs)
              (bps_total (rates_of src flows))
              (bytes_of k m.blacklist src (all_arrivals bs))
    rates_delivered m st bs s e hp hb cached client vs =
        let r = run_passes-Watches m st bs s e hp hb cached client vs in
        let t = r.tells in
        (
          r.maps,
          r.reporter,
          t.flows,
          r.ran,
          t.lines,
          t.reports,
          subst (Accounts (period interval) (length bs) (pps_total (rates_of src t.flows)))
              (omega (arith, r.packets)) t.packets,
          subst (Accounts (period interval) (length bs) (bps_total (rates_of src t.flows)))
              (omega (arith, r.bytes)) t.bytes,
        )
