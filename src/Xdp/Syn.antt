-- ===== src/Xdp/Syn.antt =====
-- `check_syn_flood` of project_submit/ebpf_control/src/xdp_blacklist.bpf.c, on one CPU.
pub mod Period
use ebpf_nids.Prelude.{ℕ, Option, none, some, ltb, if◌then◌else◌}
use ebpf_nids.Kernel.{AlertEvent, PerCpuHash, RingBuffer, syn_threshold, add64}

-- Alert type 1.
abbrev pub syn_alert : ℕ → ℕ → ℕ → AlertEvent
syn_alert src_ip dst_ip now = record {
  src_ip = src_ip;
  dst_ip = dst_ip;
  alert_type = 1;
  timestamp = now;
}

module _ (c : PerCpuHash) (r : RingBuffer) where
  -- `now` is what `bpf_ktime_get_ns` returns. The counter is written at every call, and once more
  -- with 0 at an alert, whether or not the ring buffer took the event.
  unfoldable pub check_syn_flood : c.State × r.State → ℕ → ℕ → ℕ → c.State × r.State
  check_syn_flood (m, q) src_ip dst_ip now = elim (c.lookup m src_ip) [
    | some count ↦
        let count' = add64 count 1 in
        let m' = c.store m src_ip count' in
        if ltb syn_threshold count'
        then (c.store m' src_ip 0, (r.output q (syn_alert src_ip dst_ip now)).1)
        else (m', q)
    | none ↦ ((c.update m src_ip 1).1, q)
  ]
