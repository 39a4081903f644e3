-- ===== src/Loader/Stats/Settles.antt =====
-- Reporting loses no descriptor of the client table.
use mathlib.Core.List.{foldl}
use ebpf_nids.Prelude.{ℕ, refl, ◌∙◌, Option, none, some, List, [], ◌∷◌, Option-cases, inl, inr}
use ebpf_nids.Kernel.{FlowStats}
use ebpf_nids.Loader.Json.{FlowRate, flow_json}
use ebpf_nids.Loader.Publish.{Publisher, Network}
use ebpf_nids.Loader.Stats.{Reporter, World, MapView, announce, report_source, report_key}
use ebpf_nids.Loader.Rates.{IpCache, report_flow_rate}
use ebpf_nids.Loader.Publish.Settles.{Settles, publish-Settles}

announce-Settles :
    (net : Network) (cache : List IpCache) (p : Publisher) (o : Option FlowRate)
    → Settles p (announce net cache p o).publisher
unfolding announce
announce-Settles net cache p none fd = refl
announce-Settles net cache p (some r) fd = publish-Settles net p (flow_json r) fd

report_source-Settles :
    (w : World) (interval : ℕ) (st : Reporter) (ip : ℕ) (cur : FlowStats)
    → Settles st.publisher (report_source w interval st ip cur).publisher
unfolding report_source
report_source-Settles w interval st ip cur fd =
    let r = report_flow_rate interval (w.time ip) (w.alloc ip) st.cache ip cur in
    announce-Settles w.net r.0 st.publisher r.1 fd

report_key-Settles :
    (w : World) (interval : ℕ) (m : MapView) (st : Reporter) (key : ℕ)
    → Settles st.publisher (report_key w interval m st key).publisher
unfolding report_key
report_key-Settles w interval m st key fd = elim (Option-cases (m.value key)) [
  | inl e ↦ rw (e, report_key) refl
  | inr (v, e) ↦ rw (e, report_key) (report_source-Settles w interval st key v fd)
]

pub reported-Settles :
    (w : World) (interval : ℕ) (m : MapView) (ks : List ℕ) (st : Reporter)
    → Settles st.publisher (foldl (report_key w interval m) st ks).publisher
reported-Settles w interval m [] st fd = refl
reported-Settles w interval m (k ∷ ks) st fd =
    reported-Settles w interval m ks (report_key w interval m st k) fd
    ∙ report_key-Settles w interval m st k fd
