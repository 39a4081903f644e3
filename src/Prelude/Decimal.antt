-- ===== src/Prelude/Decimal.antt =====
-- Numbers as `printf` writes them.
use ebpf_nids.Prelude.{
  ℕ, zero, suc, ◌+◌, ◌-◌, ◌*◌, ◌/◌, ◌%◌, ◌^◌, ◌≤◌, ◌<◌, ◌≡◌, true, ap, [], ◌∷◌, arith, ◌==◌, length,
  if◌then◌else◌, Bool-cases, inl, inr,
}
use native.Mathlib.Nat.{pow-suc}
use ebpf_nids.Prelude.Text.{Bytes}

-- The digits of `n` in front of `acc`, at most `fuel` of them.
unfoldable pub digits_onto : ℕ → ℕ → Bytes → Bytes
digits_onto zero n acc = acc
digits_onto (suc fuel) n acc =
    let more = digits_onto fuel (n / 10) ((48 + n % 10) ∷ acc) in
    if n / 10 == 0 then (48 + n % 10) ∷ acc else more

-- `%u` and `%PRIu64`: twenty digits are enough for 64 bits.
unfoldable pub decimal : ℕ → Bytes
decimal n = digits_onto 20 n []

-- The number that a string of digits stands for, read after `n`.
unfoldable pub value_from : ℕ → Bytes → ℕ
value_from n [] = n
value_from n (c ∷ cs) = value_from (n * 10 + (c - 48)) cs

value-digits_onto :
    (fuel n : ℕ) (acc : Bytes)
    → n < 10 ^ fuel
    → value_from 0 (digits_onto fuel n acc) ≡ value_from n acc
unfolding digits_onto value_from
value-digits_onto zero n acc h = let q : n ≡ 0 = omega arith in rw q
value-digits_onto (suc fuel) n acc h = elim (Bool-cases (n / 10 == 0)) [
  | inl last ↦
      let q : 0 * 10 + (48 + n % 10 - 48) ≡ n = ground arith in
      rw last (ap (λ (t : ℕ). value_from t acc) q)
  | inr more ↦
      let q : n / 10 * 10 + (48 + n % 10 - 48) ≡ n = omega arith in
      rw more (
        rw (value-digits_onto fuel (n / 10) ((48 + n % 10) ∷ acc) (omega (arith, pow-suc 10 fuel)))
          (ap (λ (t : ℕ). value_from t acc) q))
]

-- Every 64-bit number is written out whole: reading the digits gives it back.
pub value-decimal : (n : ℕ) → n < 2 ^ 64 → value_from 0 (decimal n) ≡ n
unfolding decimal value_from
value-decimal n h = value-digits_onto 20 n [] (omega arith)

length-digits_onto :
    (fuel n : ℕ) (acc : Bytes) → length (digits_onto fuel n acc) ≤ fuel + length acc
unfolding digits_onto
length-digits_onto zero n acc = omega arith
length-digits_onto (suc fuel) n acc =
    ground (arith, length-digits_onto fuel (n / 10) ((48 + n % 10) ∷ acc))

pub length-decimal : (n : ℕ) → length (decimal n) ≤ 20
unfolding decimal
length-decimal n = omega (arith, length-digits_onto 20 n [])

length-digits_onto_small :
    (fuel k n : ℕ) (acc : Bytes)
    → n < 10 ^ suc k
    → length (digits_onto fuel n acc) ≤ suc k + length acc
unfolding digits_onto
length-digits_onto_small zero k n acc h = omega arith
length-digits_onto_small (suc fuel) zero n acc h =
    let last : (n / 10 == 0) ≡ true = ground (arith, h) in rw last (omega arith)
length-digits_onto_small (suc fuel) (suc k) n acc h = ground (
  arith,
  length-digits_onto_small fuel k (n / 10) ((48 + n % 10) ∷ acc)
      (omega (arith, h, pow-suc 10 (suc k))),
)

-- A byte takes at most three characters.
pub length-decimal_byte : (n : ℕ) → n < 256 → length (decimal n) ≤ 3
unfolding decimal
length-decimal_byte n h = length-digits_onto_small 20 2 n [] (omega (arith, h))

abbrev pub AreDigits : Bytes → Type 0
AreDigits [] = Unit {0}
AreDigits (c ∷ cs) = (48 ≤ c) × (c ≤ 57) × AreDigits cs

digits_onto-AreDigits :
    (fuel n : ℕ) (acc : Bytes) → AreDigits acc → AreDigits (digits_onto fuel n acc)
unfolding digits_onto
digits_onto-AreDigits zero n acc h = h
digits_onto-AreDigits (suc fuel) n acc h = elim (Bool-cases (n / 10 == 0)) [
  | inl last ↦ rw last (omega arith, omega arith, h)
  | inr more ↦
      rw more
        (digits_onto-AreDigits fuel (n / 10) ((48 + n % 10) ∷ acc) (omega arith, omega arith, h))
]

pub decimal-AreDigits : (n : ℕ) → AreDigits (decimal n)
unfolding decimal
decimal-AreDigits n = digits_onto-AreDigits 20 n [] tt
