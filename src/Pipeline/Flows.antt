-- ===== src/Pipeline/Flows.antt =====
-- What `report_flow_rate` of project_submit/ebpf_control/src/loader.c hands to a client about one
-- source, while it reports others as well.
pub mod Visit
pub mod Delivery
use mathlib.Core.List.{map, map-append}
use ebpf_nids.Prelude.{
  false, ℕ, ◌+◌, ◌-◌, ◌≤◌, ◌≡◌, refl, sym, ap, ◌∙◌, Bool, Option, none, some, List, [], ◌∷◌, ◌++◌,
  append-nil, append_assoc, arith, ◌==◌, length, if◌then◌else◌, Bool-cases, Option-cases, inl, inr,
}
use ebpf_nids.Kernel.{FlowStats}
use ebpf_nids.Loader.Json.{FlowRate, flow_json}
use ebpf_nids.Loader.Clients.Conserve.{count}
use ebpf_nids.Loader.Publish.{Publisher, Network}
use ebpf_nids.Loader.Rates.{
  IpCache, find_cache, find_or_create_cache, write_cache, period, report_flow_rate,
}
use ebpf_nids.Loader.Rates.Account.{Accounts, find_cache-write_cache}
use ebpf_nids.Loader.Stats.{Reporter, announce}
use ebpf_nids.Pipeline.{stream, TakesAll, IsClient, publish-stream}
use ebpf_nids.Pipeline.Handed.{length-flow_json}

-- The reports about a source.
unfoldable pub rates_of : ℕ → List FlowRate → List FlowRate
rates_of src [] = []
rates_of src (r ∷ rs) = if r.ip == src then r ∷ rates_of src rs else rates_of src rs

unfoldable pub pps_total : List FlowRate → ℕ
pps_total [] = 0
pps_total (r ∷ rs) = r.pps + pps_total rs

unfoldable pub bps_total : List FlowRate → ℕ
bps_total [] = 0
bps_total (r ∷ rs) = r.bps + bps_total rs

-- The cache entry that holds a source's counters.
abbrev pub cache_of : ℕ → FlowStats → IpCache
cache_of src p = record { ip = src; pkts = p.pkt_count; bytes = p.byte_count }

rates_of-append :
    (src : ℕ) (a b : List FlowRate) → rates_of src (a ++ b) ≡ rates_of src a ++ rates_of src b
unfolding rates_of
rates_of-append src [] b = refl
rates_of-append src (r ∷ a) b = elim (Bool-cases (r.ip == src)) [
  | inl same ↦ rw (same, rates_of) (ap (◌∷◌ r) (rates_of-append src a b))
  | inr other ↦ rw (other, rates_of) (rates_of-append src a b)
]

totals-append :
    (a b : List FlowRate)
    → (pps_total (a ++ b) ≡ pps_total a + pps_total b)
      × (bps_total (a ++ b) ≡ bps_total a + bps_total b)
      × (length (a ++ b) ≡ length a + length b)
unfolding pps_total bps_total
totals-append [] b = (omega arith, omega arith, omega arith)
totals-append (r ∷ a) b =
    let (p, q, n) = totals-append a b in (omega (arith, p), omega (arith, q), omega (arith, n))

-- Two spans of reports, one after the other.
Accounts-trans :
    (d n n' r r' x y z : ℕ)
    → x ≤ y
    → y ≤ z
    → Accounts d n r (y - x)
    → Accounts d n' r' (z - y)
    → Accounts d (n + n') (r + r') (z - x)
Accounts-trans d n n' r r' x y z h k a b = record {
  at_most = omega (arith, a.at_most, b.at_most);
  at_least = omega (arith, a.at_least, b.at_least);
}

unfoldable pub listed : Option FlowRate → List FlowRate
listed none = []
listed (some r) = r ∷ []

-- From one state of the reporter to another the client keeps its slot and is handed a line for each
-- report; of these, `n` are about the source, whose cached counters go from `p` to `p'`, and their
-- rates account for the growth.
pub record Tells (fd src interval n : ℕ) (p p' : FlowStats) (st st' : Reporter) : Type 0 where
  pub flows : List FlowRate
  pub lines :
      stream fd st'.publisher.streams ≡ stream fd st.publisher.streams ++ map flow_json flows
  pub client : IsClient fd st'.publisher
  pub cached : find_cache st'.cache src ≡ some (cache_of src p')
  pub packets :
      Accounts (period interval) n (pps_total (rates_of src flows)) (p'.pkt_count - p.pkt_count)
  pub bytes :
      Accounts (period interval) n (bps_total (rates_of src flows)) (p'.byte_count - p.byte_count)
  pub reports : length (rates_of src flows) ≡ n
  pub more_packets : p.pkt_count ≤ p'.pkt_count
  pub more_bytes : p.byte_count ≤ p'.byte_count

module _ (fd src interval : ℕ) where
  pub Tells-refl :
      (p : FlowStats) (st : Reporter)
      → IsClient fd st.publisher
      → find_cache st.cache src ≡ some (cache_of src p)
      → Tells fd src interval 0 p p st st
  unfolding rates_of pps_total bps_total
  Tells-refl p st client cached = record {
    flows = [];
    lines = sym (append-nil _);
    client = client;
    cached = cached;
    packets = record { at_most = omega arith; at_least = omega arith };
    bytes = record { at_most = omega arith; at_least = omega arith };
    reports = refl;
    more_packets = omega arith;
    more_bytes = omega arith;
  }

  pub Tells-trans :
      {n n' : ℕ} {p p' p'' : FlowStats} {st st' st'' : Reporter}
      → Tells fd src interval n p p' st st'
      → Tells fd src interval n' p' p'' st' st''
      → Tells fd src interval (n + n') p p'' st st''
  Tells-trans {n} {n'} {p} {p'} {p''} a b =
      let both = rates_of-append src a.flows b.flows in
      let (pps, bps, len) = totals-append (rates_of src a.flows) (rates_of src b.flows) in
      record {
        flows = a.flows ++ b.flows;
        lines =
            b.lines
            ∙ ap (λ (x : List _). x ++ map flow_json b.flows) a.lines
            ∙ append_assoc _ (map flow_json a.flows) (map flow_json b.flows)
            ∙ ap (◌++◌ _) (sym (map-append flow_json a.flows b.flows));
        client = b.client;
        cached = b.cached;
        packets =
            rw (both, pps)
              (Accounts-trans (period interval) n n' _ _ p.pkt_count p'.pkt_count p''.pkt_count
                a.more_packets b.more_packets a.packets b.packets);
        bytes =
            rw (both, bps)
              (Accounts-trans (period interval) n n' _ _ p.byte_count p'.byte_count p''.byte_count
                a.more_bytes b.more_bytes a.bytes b.bytes);
        reports = ap length both ∙ len ∙ omega (arith, a.reports, b.reports);
        more_packets = omega (arith, a.more_packets, b.more_packets);
        more_bytes = omega (arith, a.more_bytes, b.more_bytes);
      }

pub announce-lines :
    (net : Network) (fd : ℕ) (cache : List IpCache) (p : Publisher) (o : Option FlowRate)
    → TakesAll net fd
    → IsClient fd p
    → (stream fd (announce net cache p o).publisher.streams
        ≡ stream fd p.streams ++ map flow_json (listed o))
      × IsClient fd (announce net cache p o).publisher
      × ((announce net cache p o).cache ≡ cache)
unfolding announce listed
announce-lines net fd cache p none takes client = (sym (append-nil _), client, refl)
announce-lines net fd cache p (some r) takes client =
    let (now, still) =
      publish-stream net p fd (flow_json r) takes (omega (arith, length-flow_json r)) client in
    (now, still, refl)

-- The report of another source.
pub other_report :
    (interval now : ℕ) (alloc : Bool) (head : List IpCache) (ip src : ℕ) (cur : FlowStats)
    → (ip == src) ≡ false
    → (find_cache (report_flow_rate interval now alloc head ip cur).0 src ≡ find_cache head src)
      × (rates_of src (listed (report_flow_rate interval now alloc head ip cur).1) ≡ [])
unfolding report_flow_rate find_or_create_cache rates_of listed find_cache
other_report interval now alloc head ip src cur ne = elim (Option-cases (find_cache head ip)) [
  | inl new ↦
      rw (new, report_flow_rate, find_or_create_cache)
        (elim (Bool-cases alloc) [
          | inl room ↦ rw room (rw ne (refl, refl))
          | inr full ↦ rw full (refl, refl)
        ])
  | inr (p, old) ↦
      rw (old, report_flow_rate, find_or_create_cache)
        (
          find_cache-write_cache head ip cur.pkt_count cur.byte_count src p old ∙ rw ne refl,
          rw ne refl,
        )
]
