-- ===== src/Pipeline/Watch/Detectors.antt =====
-- What each detector of xdp_firewall of project_submit/ebpf_control/src/xdp_blacklist.bpf.c
-- puts into the ring buffer about a watched source.
use ebpf_nids.Prelude.{
  ℕ, ◌≡◌, refl, ◌∙◌, true, false, not, ◌&&◌, List, [], ◌∷◌, arith, ◌==◌, if◌then◌else◌, if_both,
  Bool-cases, inl, inr,
}
use ebpf_nids.Kernel.{Kernel, Maps, AlertEvent, syn_threshold}
use ebpf_nids.Xdp.Syn.{syn_alert}
use ebpf_nids.Xdp.Syn.Period.{next_count, counter_step}
use ebpf_nids.Xdp.Scan.{scan_alert}
use ebpf_nids.Xdp.Scan.Refine.{reports, remember, scan_step_Knows, scan_step_output}
use ebpf_nids.Xdp.Firewall.{syn_bit, ack_bit, syn_step, scan_step}
use ebpf_nids.Pipeline.Due.{
  check_syn_flood-Adds, check_port_scan-Adds, lookup-check_syn_flood_ne, lookup-check_port_scan_ne,
}
use ebpf_nids.Pipeline.Watch.{Watched, Tracks, Raises}
use ebpf_nids.Pipeline.Watch.Adding.{Raises-none, submit_if, one_about, Adds-Raises}

module _ (k : Kernel) where
  abbrev pub syn_due : ℕ → Watched → ℕ → ℕ → ℕ → List AlertEvent
  syn_due src w flags dst t =
      if not (ack_bit flags) && w.count == syn_threshold then syn_alert src dst t ∷ [] else []

  abbrev pub syn_next : Watched → ℕ → Watched
  syn_next w flags = record w {
    count = if not (ack_bit flags) then next_count w.count else w.count;
  }

  pub syn_watched :
      (m : Maps k) (src : ℕ) (w : Watched) (flags dst t : ℕ)
      → Tracks k m src w
      → syn_bit flags ≡ true
      → Raises k 1 m src
          (syn_due src w flags dst t)
          (syn_next w flags)
          (syn_step k m flags src dst t)
  unfolding syn_step
  syn_watched m src w flags dst t h syn = elim (Bool-cases (not (ack_bit flags))) [
    | inr old ↦ rw (syn, syn_step) (rw old (Raises-none k 1 m src w h))
    | inl fresh ↦
        let (known, sent) =
          counter_step k.syn_counter k.alert_rb m.syn_counter m.alert_rb src w.count dst t h.counter
            h.low in
        rw (syn, syn_step)
          (rw fresh (record {
            events = if w.count == syn_threshold then syn_alert src dst t ∷ [] else [];
            queued = sent ∙ submit_if k (w.count == syn_threshold) m.alert_rb (syn_alert src dst t);
            few = (one_about k (w.count == syn_threshold) src (syn_alert src dst t) refl).0;
            concerning = (one_about k (w.count == syn_threshold) src (syn_alert src dst t) refl).1;
            tracks = record { counter = known; low = ground (arith, h.low); bitmap = h.bitmap };
          }))
  ]

  pub syn_other :
      (m : Maps k) (src other : ℕ) (w : Watched) (flags dst t : ℕ)
      → (other == src) ≡ false
      → Tracks k m src w
      → Raises k 1 m src [] w (syn_step k m flags other dst t)
  unfolding syn_step
  syn_other m src other w flags dst t ne h =
      if_both (Raises k 1 m src [] w) (syn_bit flags && not (ack_bit flags))
        (Adds-Raises k m src other w _ ne
          (check_syn_flood-Adds k.syn_counter k.alert_rb m.syn_counter m.alert_rb other dst t)
          (record {
            counter =
                lookup-check_syn_flood_ne k.syn_counter k.alert_rb m.syn_counter m.alert_rb other
                  dst t src ne
                ∙ h.counter;
            low = h.low;
            bitmap = h.bitmap;
          }))
        (Raises-none k 1 m src w h)

  pub scan_watched :
      (m : Maps k) (src : ℕ) (w : Watched) (flags dst port t : ℕ)
      → Tracks k m src w
      → syn_bit flags ≡ true
      → Raises k 1 m src
          (if reports w.ports port then scan_alert src dst t ∷ [] else [])
          (record w { ports = remember w.ports port })
          (scan_step k m flags src dst port t)
  unfolding scan_step
  scan_watched m src w flags dst port t h syn =
      let one = one_about k (reports w.ports port) src (scan_alert src dst t) refl in
      rw syn (record {
        events = if reports w.ports port then scan_alert src dst t ∷ [] else [];
        queued =
            scan_step_output k.port_scan_map k.alert_rb m.port_scan_map m.alert_rb src w.ports dst
              port t h.bitmap
            ∙ submit_if k (reports w.ports port) m.alert_rb (scan_alert src dst t);
        few = one.0;
        concerning = one.1;
        tracks = record {
          counter = h.counter;
          low = h.low;
          bitmap =
              scan_step_Knows k.port_scan_map k.alert_rb m.port_scan_map m.alert_rb src w.ports dst
                port t h.bitmap;
        };
      })

  pub scan_other :
      (m : Maps k) (src other : ℕ) (w : Watched) (flags dst port t : ℕ)
      → (other == src) ≡ false
      → Tracks k m src w
      → Raises k 1 m src [] w (scan_step k m flags other dst port t)
  unfolding scan_step
  scan_other m src other w flags dst port t ne h =
      if_both (Raises k 1 m src [] w) (syn_bit flags)
        (Adds-Raises k m src other w _ ne
          (check_port_scan-Adds k.port_scan_map k.alert_rb m.port_scan_map m.alert_rb other dst port
            t)
          (record {
            counter = h.counter;
            low = h.low;
            bitmap = record {
              bitmap = h.bitmap.bitmap;
              found =
                  lookup-check_port_scan_ne k.port_scan_map k.alert_rb m.port_scan_map m.alert_rb
                    other dst port t src ne
                  ∙ h.bitmap.found;
              represents = h.bitmap.represents;
            };
          }))
        (Raises-none k 1 m src w h)
