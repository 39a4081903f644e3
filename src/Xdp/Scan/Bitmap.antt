-- ===== src/Xdp/Scan/Bitmap.antt =====
-- The bitmap as a set of the ports below 1024.
use Prim.Native.Nat.{bit_or}
use ebpf_nids.Prelude.{
  ℕ, zero, suc, ◌+◌, ◌/◌, ◌%◌, ◌^◌, ◌<◌, ◌≡◌, ◌≢◌, refl, ap, [], ◌∷◌, arith, ◌==◌, length,
  length-set, get_or, set, get_or-set_self, get_or-set_ne, inl, inr, if◌then◌else◌, Bool-cases,
  ==_iff,
}
use ebpf_nids.Prelude.Bits.{
  bit_at, popcount, popcount-zero, popcount-bit_or, bit_at-bit_or, bit_at-zero,
}
use ebpf_nids.Kernel.{PortBitmap}
use ebpf_nids.Xdp.Scan.{mark, total_ports, clear}

-- The bit of a port.
pub test_port : PortBitmap → ℕ → ℕ
test_port b p = bit_at (p % 64) (get_or b (p / 64) 0)

total_ports-set :
    (b : PortBitmap) (i v : ℕ)
    → i < length b
    → total_ports (set b i v) + popcount 64 (get_or b i 0) ≡ total_ports b + popcount 64 v
unfolding total_ports
total_ports-set [] i v h = absurd (omega arith)
total_ports-set (w ∷ ws) zero v h = omega arith
total_ports-set (w ∷ ws) (suc i) v h = omega (arith, total_ports-set ws i v (omega arith))

-- Marking a port counts one more, unless it was marked.
pub total_ports-mark :
    (b : PortBitmap) (p : ℕ)
    → length b ≡ 16
    → p < 1024
    → total_ports (mark b p) + test_port b p ≡ total_ports b + 1
unfolding mark test_port
total_ports-mark b p n h =
    let w = get_or b (p / 64) 0 in
    omega (
      arith,
      total_ports-set b (p / 64) (bit_or w (2 ^ (p % 64))) (omega arith),
      popcount-bit_or 64 (p % 64) w (omega arith),
    )

-- Marking a port marks it and no other.
pub test_port-mark :
    (b : PortBitmap) (p q : ℕ)
    → length b ≡ 16
    → p < 1024
    → test_port (mark b p) q ≡ (if p == q then 1 else test_port b q)
unfolding mark test_port
test_port-mark b p q n h = elim (Bool-cases (p / 64 == q / 64)) [
  | inl same ↦
      let e : p / 64 ≡ q / 64 = (==_iff _ _).0 same in
      let w = get_or b (q / 64) 0 in
      rw e (
        rw (get_or-set_self b (q / 64) (bit_or w (2 ^ (p % 64))) 0 (omega arith))
          (ground (arith, bit_at-bit_or (q % 64) (p % 64) w)))
  | inr other ↦
      let ne : p / 64 ≢ q / 64 = ground arith in
      rw (get_or-set_ne b (p / 64) (q / 64) _ 0 ne) (ground arith)
]

pub length-mark : (b : PortBitmap) (p : ℕ) → length (mark b p) ≡ length b
unfolding mark
length-mark b p = length-set b (p / 64) _

pub length-clear : (b : PortBitmap) → length (clear b) ≡ length b
unfolding clear
length-clear [] = refl
length-clear (w ∷ ws) = ap suc (length-clear ws)

pub total_ports-clear : (b : PortBitmap) → total_ports (clear b) ≡ 0
unfolding clear total_ports
total_ports-clear [] = refl
total_ports-clear (w ∷ ws) = omega (arith, popcount-zero 64, total_ports-clear ws)

get_or-clear : (b : PortBitmap) (i : ℕ) → get_or (clear b) i 0 ≡ 0
unfolding clear
get_or-clear [] i = refl
get_or-clear (w ∷ ws) zero = refl
get_or-clear (w ∷ ws) (suc i) = get_or-clear ws i

pub test_port-clear : (b : PortBitmap) (p : ℕ) → test_port (clear b) p ≡ 0
unfolding test_port
test_port-clear b p = rw (get_or-clear b (p / 64)) (bit_at-zero (p % 64))
