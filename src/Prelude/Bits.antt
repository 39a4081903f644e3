-- ===== src/Prelude/Bits.antt =====
-- Single bits of a word: `1ULL << k`, `|=` with one bit, and `__builtin_popcountll`.
use Prim.Native.Nat.{bit_or, max, digits, bit_or-bitwise}
use native.Mathlib.Nat.{le_refl, pow-suc}
use ebpf_nids.Prelude.{
  ℕ, zero, suc, ◌+◌, ◌*◌, ◌/◌, ◌%◌, ◌^◌, ◌≤◌, ◌<◌, ◌≡◌, refl, arith, ◌==◌, if◌then◌else◌,
}

-- Bit `k` of `w`.
unfoldable pub bit_at : ℕ → ℕ → ℕ
bit_at zero w = w % 2
bit_at (suc k) w = bit_at k (w / 2)

-- The number of ones among the lowest `n` bits.
unfoldable pub popcount : ℕ → ℕ → ℕ
popcount zero w = 0
popcount (suc n) w = w % 2 + popcount n (w / 2)

-- The digits of an "or" do not depend on how much fuel is left over.
or_fuel : (n m a b : ℕ) → a ≤ n → a ≤ m → digits (λ y. y) max n a b ≡ digits (λ y. y) max m a b
or_fuel (suc n) (suc m) (suc a) b h k =
    rw (or_fuel n m (suc a / 2) (b / 2) (omega arith) (omega arith))
or_fuel zero (suc m) (suc a) b h k = absurd (omega arith)
or_fuel (suc n) zero (suc a) b h k = absurd (omega arith)
or_fuel zero zero a b h k = refl
or_fuel zero (suc m) zero b h k = refl
or_fuel (suc n) zero zero b h k = refl
or_fuel (suc n) (suc m) zero b h k = refl

or_lowest : (a b : ℕ) → bit_or a b ≡ bit_or (a / 2) (b / 2) * 2 + max (a % 2) (b % 2)
or_lowest zero b = simp bit_or-bitwise (omega arith)
or_lowest (suc a) b =
    simp bit_or-bitwise
      (omega (arith, or_fuel a (suc a / 2) (suc a / 2) (b / 2) (omega arith) (le_refl _)))

or_zero_fuel : (n a : ℕ) → a ≤ n → bit_or a 0 ≡ a
or_zero_fuel n zero h = refl
or_zero_fuel zero (suc a) h = absurd (omega arith)
or_zero_fuel (suc n) (suc a) h =
    omega (arith, or_lowest (suc a) 0, or_zero_fuel n (suc a / 2) (omega arith))

bit_or-zero : (a : ℕ) → bit_or a 0 ≡ a
bit_or-zero a = or_zero_fuel a a (le_refl a)

or_one : (w : ℕ) → bit_or w 1 ≡ w / 2 * 2 + 1
or_one w = omega (arith, or_lowest w 1, bit_or-zero (w / 2))

or_suc : (k w : ℕ) → bit_or w (2 ^ suc k) ≡ bit_or (w / 2) (2 ^ k) * 2 + w % 2
or_suc k w = ground (arith, or_lowest w (2 ^ suc k), pow-suc 2 k)

pub bit_at-le : (k w : ℕ) → bit_at k w ≤ 1
unfolding bit_at
bit_at-le zero w = omega arith
bit_at-le (suc k) w = bit_at-le k (w / 2)

pub bit_at-zero : (k : ℕ) → bit_at k 0 ≡ 0
unfolding bit_at
bit_at-zero zero = refl
bit_at-zero (suc k) = bit_at-zero k

-- Setting one bit sets it and no other.
pub bit_at-bit_or : (j k w : ℕ) → bit_at j (bit_or w (2 ^ k)) ≡ (if k == j then 1 else bit_at j w)
unfolding bit_at
bit_at-bit_or zero zero w = omega (arith, or_one w)
bit_at-bit_or (suc j) zero w =
    let q : bit_or w 1 / 2 ≡ w / 2 = omega (arith, or_one w) in ground (arith, q)
bit_at-bit_or zero (suc k) w = ground (arith, or_suc k w)
bit_at-bit_or (suc j) (suc k) w =
    let q : bit_or w (2 ^ suc k) / 2 ≡ bit_or (w / 2) (2 ^ k) = omega (arith, or_suc k w) in
    ground (arith, q, bit_at-bit_or j k (w / 2))

pub popcount-zero : (n : ℕ) → popcount n 0 ≡ 0
unfolding popcount
popcount-zero zero = refl
popcount-zero (suc n) = omega (arith, popcount-zero n)

-- Setting a bit counts one more, unless it was set already.
pub popcount-bit_or :
    (n k w : ℕ) → k < n → popcount n (bit_or w (2 ^ k)) + bit_at k w ≡ popcount n w + 1
unfolding popcount bit_at
popcount-bit_or zero k w h = absurd (omega arith)
popcount-bit_or (suc n) zero w h =
    let q : bit_or w 1 / 2 ≡ w / 2 = omega (arith, or_one w) in ground (arith, q, or_one w)
popcount-bit_or (suc n) (suc k) w h =
    let q : bit_or w (2 ^ suc k) / 2 ≡ bit_or (w / 2) (2 ^ k) = omega (arith, or_suc k w) in
    ground (arith, q, or_suc k w, popcount-bit_or n k (w / 2) (omega arith))
