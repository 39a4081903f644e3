-- ===== src/Xdp/Scan/Refine.antt =====
-- The bitmap implements a set of ports: what a source that probes ports is reported for.
use ebpf_nids.Prelude.{
  ℕ, ◌<◌, ◌≡◌, refl, Bool, true, false, ◌&&◌, not, List, [], ◌∷◌, some, arith, ltb, ◌==◌, length,
  if◌then◌else◌, inl, inr, Bool-cases, ltb→lt,
}
use ebpf_nids.Kernel.{AlertEvent, PortBitmap, HashMap, RingBuffer, port_scan_threshold, submit}
use ebpf_nids.Xdp.Scan.{scan_alert, mark, total_ports, clear, check_port_scan}
use ebpf_nids.Xdp.Scan.Bitmap.{
  test_port, total_ports-mark, test_port-mark, length-mark, length-clear, total_ports-clear,
  test_port-clear,
}

-- A SYN packet of one source: where it goes, and when it is seen.
pub record Probe : Type 0 where
  pub dst_ip : ℕ
  pub dst_port : ℕ
  pub time : ℕ

unfoldable pub contains : ℕ → List ℕ → Bool
contains p [] = false
contains p (q ∷ ports) = if p == q then true else contains p ports

-- The distinct low ports after one more probe.
unfoldable pub touch : List ℕ → ℕ → List ℕ
touch ports p = if ltb p 1024 && not (contains p ports) then p ∷ ports else ports

-- Whether that probe is reported, and the ports that are remembered after it.
abbrev pub reports : List ℕ → ℕ → Bool
reports ports p = ltb p 1024 && ltb port_scan_threshold (length (touch ports p))

abbrev pub remember : List ℕ → ℕ → List ℕ
remember ports p = if reports ports p then [] else touch ports p

pub expected : ℕ → List ℕ → List Probe → List AlertEvent
expected src ports [] = []
expected src ports (p ∷ ps) =
    let rest = expected src (remember ports p.dst_port) ps in
    if reports ports p.dst_port then scan_alert src p.dst_ip p.time ∷ rest else rest

pub remembered : List ℕ → List Probe → List ℕ
remembered ports [] = ports
remembered ports (p ∷ ps) = remembered (remember ports p.dst_port) ps

-- The bitmap holds these ports, each once.
pub record Represents (b : PortBitmap) (ports : List ℕ) : Type 0 where
  pub words : length b ≡ 16
  pub counted : total_ports b ≡ length ports
  pub bits : (p : ℕ) → test_port b p ≡ (if contains p ports then 1 else 0)

mark-Represents :
    (b : PortBitmap) (ports : List ℕ) (p : ℕ)
    → Represents b ports
    → p < 1024
    → Represents (mark b p) (touch ports p)
unfolding touch contains
mark-Represents b ports p v low = record {
  words = ground (arith, v.words, length-mark b p);
  counted = ground (arith, v.words, v.counted, v.bits p, total_ports-mark b p);
  bits = λ q. ground (arith, v.words, v.bits p, v.bits q, test_port-mark b p q);
}

pub clear-Represents : (b : PortBitmap) → length b ≡ 16 → Represents (clear b) []
unfolding contains
clear-Represents b n = record {
  words = ground (arith, length-clear b);
  counted = total_ports-clear b;
  bits = test_port-clear b;
}

touch_high : (ports : List ℕ) (p : ℕ) → ltb p 1024 ≡ false → touch ports p ≡ ports
unfolding touch
touch_high ports p high = rw high

next_bitmap : PortBitmap → ℕ → PortBitmap
next_bitmap b p =
    if ltb p 1024
    then if ltb port_scan_threshold (total_ports (mark b p)) then clear (mark b p) else mark b p
    else b

next_bitmap-Represents :
    (b : PortBitmap) (ports : List ℕ) (p : ℕ)
    → Represents b ports
    → Represents (next_bitmap b p) (remember ports p)
unfolding next_bitmap
next_bitmap-Represents b ports p v = elim (Bool-cases (ltb p 1024)) [
  | inr high ↦ rw high (rw (touch_high ports p high) v)
  | inl low ↦
      let w : Represents (mark b p) (touch ports p) =
        mark-Represents b ports p v (ltb→lt p 1024 low) in
      rw (low, w.counted)
        (elim (Bool-cases (ltb port_scan_threshold (length (touch ports p)))) [
          | inl many ↦ rw many (clear-Represents (mark b p) w.words)
          | inr few ↦ rw few w
        ])
]

module _ (h : HashMap PortBitmap) (r : RingBuffer) where
  unfoldable pub run_probes : h.State × r.State → ℕ → List Probe → h.State × r.State
  run_probes s src [] = s
  run_probes s src (p ∷ ps) =
      run_probes (check_port_scan h r s src p.dst_ip p.dst_port p.time) src ps

  -- What the map holds for the source is a bitmap of these ports.
  pub record Knows (m : h.State) (src : ℕ) (ports : List ℕ) : Type 0 where
    pub bitmap : PortBitmap
    pub found : h.lookup m src ≡ some bitmap
    pub represents : Represents bitmap ports

  module _ (m : h.State) (q : r.State) (src : ℕ) (ports : List ℕ) (dst p now : ℕ) where
    pub scan_step_Knows :
        Knows m src ports
        → Knows (check_port_scan h r (m, q) src dst p now).0 src (remember ports p)
    unfolding check_port_scan next_bitmap
    scan_step_Knows k =
        let b = k.bitmap in
        record {
          bitmap = next_bitmap b p;
          found = ground (
            arith,
            h.lookup-store m src b (mark b p) src,
            h.lookup-store (h.store m src (mark b p)) src (mark b p) (clear (mark b p)) src,
          );
          represents = next_bitmap-Represents b ports p k.represents;
        }

    pub scan_step_output :
        Knows m src ports
        → (check_port_scan h r (m, q) src dst p now).1
          ≡ (if reports ports p then (r.output q (scan_alert src dst now)).1 else q)
    unfolding check_port_scan
    scan_step_output k =
        let b = k.bitmap in
        let w = λ (low : p < 1024). mark-Represents b ports p k.represents low in
        ground (arith, λ (low : p < 1024). (w low).counted)

  -- A source that the map holds with the set `ports`, and that sends SYN packets to more ports, has
  -- in the map the set that is left: a port below 1024 joins it, once however often it is probed,
  -- and a set that passes 20 ports is emptied. An event goes to the ring buffer at each probe that
  -- makes the set pass 20, with its destination and time, and at no other.
  pub port_scan_refines :
      (m : h.State) (q : r.State) (src : ℕ) (ports : List ℕ) (ps : List Probe)
      → Knows m src ports
      → Knows (run_probes (m, q) src ps).0 src (remembered ports ps)
        × ((run_probes (m, q) src ps).1 ≡ submit r q (expected src ports ps))
  unfolding run_probes submit expected remembered
  port_scan_refines m q src ports [] k = (k, refl)
  port_scan_refines m q src ports (p ∷ ps) k =
      let s = check_port_scan h r (m, q) src p.dst_ip p.dst_port p.time in
      let known = scan_step_Knows m q src ports p.dst_ip p.dst_port p.time k in
      let sent = scan_step_output m q src ports p.dst_ip p.dst_port p.time k in
      let (last, raised) = port_scan_refines s.0 s.1 src (remember ports p.dst_port) ps known in
      (last, ground (arith, sent, raised))
