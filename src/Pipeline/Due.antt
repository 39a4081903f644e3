-- ===== src/Pipeline/Due.antt =====
-- What one packet makes xdp_firewall of project_submit/ebpf_control/src/xdp_blacklist.bpf.c put into
-- the ring buffer, for a source that is watched while others send too.
use ebpf_nids.Prelude.{
  if_both, ℕ, ◌≤◌, ◌≡◌, refl, ap, ◌∙◌, false, some, List, [], ◌∷◌, ◌++◌, arith, ◌==◌, ltb, length,
  if◌then◌else◌, Bool-cases, Option-cases, inl, inr,
}
use ebpf_nids.Kernel.{
  submit, add64, AlertEvent, PortBitmap, HashMap, PerCpuHash, RingBuffer, syn_threshold,
  port_scan_threshold,
}
use ebpf_nids.Xdp.Syn.{syn_alert, check_syn_flood}
use ebpf_nids.Xdp.Scan.{
  scan_alert, mark, clear, total_ports, check_port_scan, record_port, empty_bitmap,
}

-- The events about one source.
unfoldable pub about : ℕ → List AlertEvent → List AlertEvent
about src [] = []
about src (e ∷ es) = if e.src_ip == src then e ∷ about src es else about src es

pub about-append :
    (src : ℕ) (a b : List AlertEvent) → about src (a ++ b) ≡ about src a ++ about src b
unfolding about
about-append src [] b = refl
about-append src (e ∷ a) b = elim (Bool-cases (e.src_ip == src)) [
  | inl same ↦ rw (same, about) (ap (◌∷◌ e) (about-append src a b))
  | inr other ↦ rw (other, about) (about-append src a b)
]

-- All of them are about one source.
abbrev pub AllBlame : ℕ → List AlertEvent → Type 0
AllBlame src [] = Unit {0}
AllBlame src (e ∷ es) = (e.src_ip ≡ src) × AllBlame src es

pub about_other :
    (src other : ℕ) (es : List AlertEvent)
    → (other == src) ≡ false
    → AllBlame other es
    → about src es ≡ []
unfolding about
about_other src other [] ne h = refl
about_other src other (e ∷ es) ne h =
    let miss : (e.src_ip == src) ≡ false = ap (λ n. n == src) h.0 ∙ ne in
    rw (miss, about) (about_other src other es ne h.1)

-- At most one event about `src` went into the ring buffer.
pub record Adds (r : RingBuffer) (q : r.State) (src : ℕ) (q' : r.State) : Type 0 where
  pub events : List AlertEvent
  pub queued : q' ≡ submit r q events
  pub few : length events ≤ 1
  pub blames : AllBlame src events

module _ (r : RingBuffer) (q : r.State) (src : ℕ) where
  nothing : Adds r q src q
  unfolding submit
  nothing = record { events = []; queued = refl; few = omega arith; blames = tt }

  one : (e : AlertEvent) → e.src_ip ≡ src → Adds r q src (r.output q e).1
  unfolding submit
  one e h = record { events = e ∷ []; queued = refl; few = omega arith; blames = (h, tt) }

module _ (c : PerCpuHash) (r : RingBuffer) (m : c.State) (q : r.State) (src dst now : ℕ) where
  pub check_syn_flood-Adds : Adds r q src (check_syn_flood c r (m, q) src dst now).1
  unfolding check_syn_flood
  check_syn_flood-Adds = elim (Option-cases (c.lookup m src)) [
    | inl e ↦ rw (e, check_syn_flood) (nothing r q src)
    | inr (n, e) ↦
        rw (e, check_syn_flood)
          (if_both (λ (s : c.State × r.State). Adds r q src s.1) (ltb syn_threshold (add64 n 1))
            (one r q src (syn_alert src dst now) refl) (nothing r q src))
  ]

  -- Another source's counter stays.
  pub lookup-check_syn_flood_ne :
      (j : ℕ)
      → (src == j) ≡ false
      → c.lookup (check_syn_flood c r (m, q) src dst now).0 j ≡ c.lookup m j
  unfolding check_syn_flood
  lookup-check_syn_flood_ne j ne = elim (Option-cases (c.lookup m src)) [
    | inl e ↦ ground (arith, c.lookup-update m src 1 j)
    | inr (n, e) ↦
        let w = c.lookup-store m src n (add64 n 1) in
        ground (arith, w src, w j, c.lookup-store (c.store m src (add64 n 1)) src (add64 n 1) 0 j)
  ]

module _ (h : HashMap PortBitmap) (r : RingBuffer) (m : h.State) (q : r.State)
    (src dst port now : ℕ) where
  record_port-Adds : (b : PortBitmap) → Adds r q src (record_port h r (m, q) b src dst port now).1
  unfolding record_port
  record_port-Adds b =
      let P = λ (s : h.State × r.State). Adds r q src s.1 in
      if_both P (ltb port 1024)
        (if_both P (ltb port_scan_threshold (total_ports (mark b port)))
          (one r q src (scan_alert src dst now) refl) (nothing r q src))
        (nothing r q src)

  lookup-record_port_ne :
      (b : PortBitmap) (j : ℕ)
      → h.lookup m src ≡ some b
      → (src == j) ≡ false
      → h.lookup (record_port h r (m, q) b src dst port now).0 j ≡ h.lookup m j
  unfolding record_port
  lookup-record_port_ne b j e ne =
      let w = h.lookup-store m src b (mark b port) in
      ground (
        arith,
        w src,
        w j,
        h.lookup-store (h.store m src (mark b port)) src (mark b port) (clear (mark b port)) j,
      )

module _ (h : HashMap PortBitmap) (r : RingBuffer) (m : h.State) (q : r.State)
    (src dst port now : ℕ) where
  pub check_port_scan-Adds : Adds r q src (check_port_scan h r (m, q) src dst port now).1
  unfolding check_port_scan
  check_port_scan-Adds =
      let m' = (h.update m src empty_bitmap).1 in
      elim (Option-cases (h.lookup m src)) [
        | inr (b, e) ↦ rw (e, check_port_scan) (record_port-Adds h r m q src dst port now b)
        | inl e ↦
            rw (e, check_port_scan)
              (elim (Option-cases (h.lookup m' src)) [
                | inl e' ↦ rw e' (nothing r q src)
                | inr (b, e') ↦ rw e' (record_port-Adds h r m' q src dst port now b)
              ])
      ]

  pub lookup-check_port_scan_ne :
      (j : ℕ)
      → (src == j) ≡ false
      → h.lookup (check_port_scan h r (m, q) src dst port now).0 j ≡ h.lookup m j
  unfolding check_port_scan
  lookup-check_port_scan_ne j ne =
      let m' = (h.update m src empty_bitmap).1 in
      let new : h.lookup m' j ≡ h.lookup m j =
        ground (arith, h.lookup-update m src empty_bitmap j) in
      elim (Option-cases (h.lookup m src)) [
        | inr (b, e) ↦
            rw (e, check_port_scan) (lookup-record_port_ne h r m q src dst port now b j e ne)
        | inl e ↦
            rw (e, check_port_scan)
              (elim (Option-cases (h.lookup m' src)) [
                | inl e' ↦ rw e' new
                | inr (b, e') ↦
                    rw e' (lookup-record_port_ne h r m' q src dst port now b j e' ne ∙ new)
              ])
      ]
