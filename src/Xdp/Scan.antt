-- ===== src/Xdp/Scan.antt =====
-- `check_port_scan` of project_submit/ebpf_control/src/xdp_blacklist.bpf.c, and its bitmap.
pub mod Bitmap
pub mod Refine
use Prim.Native.Nat.{bit_or}
use ebpf_nids.Prelude.{
  ℕ, ◌+◌, ◌/◌, ◌%◌, ◌^◌, Option, none, some, List, [], ◌∷◌, ltb, get_or, set, replicate,
  if◌then◌else◌,
}
use ebpf_nids.Prelude.Bits.{popcount}
use ebpf_nids.Kernel.{AlertEvent, PortBitmap, HashMap, RingBuffer, port_scan_threshold}

-- Alert type 2.
abbrev pub scan_alert : ℕ → ℕ → ℕ → AlertEvent
scan_alert src_ip dst_ip now = record {
  src_ip = src_ip;
  dst_ip = dst_ip;
  alert_type = 2;
  timestamp = now;
}

abbrev pub empty_bitmap : PortBitmap
empty_bitmap = replicate 16 0

-- `bitmap->bitmap[idx] |= (1ULL << bit)`
unfoldable pub mark : PortBitmap → ℕ → PortBitmap
mark b port =
    let idx = port / 64 in let bit = port % 64 in set b idx (bit_or (get_or b idx 0) (2 ^ bit))

-- The loop that adds up the population counts.
unfoldable pub total_ports : PortBitmap → ℕ
total_ports [] = 0
total_ports (w ∷ ws) = popcount 64 w + total_ports ws

-- The loop that resets the words.
unfoldable pub clear : PortBitmap → PortBitmap
clear [] = []
clear (w ∷ ws) = 0 ∷ clear ws

module _ (h : HashMap PortBitmap) (r : RingBuffer) where
  -- With the source's bitmap at hand; the bitmap is written through the map's pointer.
  unfoldable pub record_port : h.State × r.State → PortBitmap → ℕ → ℕ → ℕ → ℕ → h.State × r.State
  record_port (m, q) b src_ip dst_ip dst_port now =
      let b' = mark b dst_port in
      let m' = h.store m src_ip b' in
      if ltb dst_port 1024
      then if ltb port_scan_threshold (total_ports b')
        then (h.store m' src_ip (clear b'), (r.output q (scan_alert src_ip dst_ip now)).1)
        else (m', q)
      else (m, q)

  -- `now` is what `bpf_ktime_get_ns` returns. A source that is new gets an empty bitmap; where the
  -- map is full the second lookup fails, and the call returns.
  unfoldable pub check_port_scan : h.State × r.State → ℕ → ℕ → ℕ → ℕ → h.State × r.State
  unfolding record_port
  check_port_scan (m, q) src_ip dst_ip dst_port now = elim (h.lookup m src_ip) [
    | some b ↦ record_port (m, q) b src_ip dst_ip dst_port now
    | none ↦
        let m' = (h.update m src_ip empty_bitmap).1 in
        elim (h.lookup m' src_ip) [
          | some b ↦ record_port (m', q) b src_ip dst_ip dst_port now
          | none ↦ (m', q)
        ]
  ]
