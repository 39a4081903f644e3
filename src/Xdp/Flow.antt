-- ===== src/Xdp/Flow.antt =====
-- `update_flow_stats` of project_submit/ebpf_control/src/xdp_blacklist.bpf.c.
use ebpf_nids.Prelude.{
  ℕ, ◌≡◌, false, ◌&&◌, none, some, arith, ◌==◌, if◌then◌else◌, Option-cases, inl, inr,
}
use ebpf_nids.Kernel.{FlowStats, HashMap, add64}

module _ (h : HashMap FlowStats) where
  -- One packet of `pkt_size` bytes from `src_ip`.
  unfoldable pub update_flow_stats : h.State → ℕ → ℕ → h.State
  update_flow_stats m src_ip pkt_size = elim (h.lookup m src_ip) [
    | some stats ↦ h.store m src_ip (record {
      pkt_count = add64 stats.pkt_count 1;
      byte_count = add64 stats.byte_count pkt_size;
    })
    | none ↦ (h.update m src_ip (record { pkt_count = 1; byte_count = pkt_size })).1
  ]

  -- What a known source's entry becomes.
  abbrev pub counted : FlowStats → ℕ → FlowStats
  counted s size = record { pkt_count = add64 s.pkt_count 1; byte_count = add64 s.byte_count size }

  pub lookup-update_flow_stats :
      (m : h.State) (src size : ℕ) (s : FlowStats) (j : ℕ)
      → h.lookup m src ≡ some s
      → h.lookup (update_flow_stats m src size) j
        ≡ (if src == j then some (counted s size) else h.lookup m j)
  unfolding update_flow_stats
  lookup-update_flow_stats m src size s j e =
      rw (e, update_flow_stats) (h.lookup-store m src s (counted s size) j e)

  -- A source with no entry gets one of its own, or nothing changes, and other entries stay.
  pub lookup-update_flow_stats_new :
      (m : h.State) (src size j : ℕ)
      → h.lookup m src ≡ none
      → h.lookup (update_flow_stats m src size) j ≡ (
          if (h.update m src (record { pkt_count = 1; byte_count = size })).0 && src == j
          then some (record { pkt_count = 1; byte_count = size })
          else h.lookup m j)
  unfolding update_flow_stats
  lookup-update_flow_stats_new m src size j e =
      rw (e, update_flow_stats) (h.lookup-update m src _ j)

  -- A call for one source never changes another's entry.
  pub lookup-update_flow_stats_ne :
      (m : h.State) (src size j : ℕ)
      → (src == j) ≡ false
      → h.lookup (update_flow_stats m src size) j ≡ h.lookup m j
  lookup-update_flow_stats_ne m src size j ne = elim (Option-cases (h.lookup m src)) [
    | inl e ↦ ground (arith, lookup-update_flow_stats_new m src size j e)
    | inr (s, e) ↦ ground (arith, lookup-update_flow_stats m src size s j e)
  ]
