-- ===== src/Tools/Strtol.antt =====
-- `strtol` with base 10 of the C library, which the tools of examples/c read their arguments with: the `long`,
-- and whether it sets `errno`, since the number is out of range.
use ebpf_nids.Prelude.{
  ℕ, zero, suc, ◌-◌, ◌^◌, ◌<◌, ◌≡◌, refl, ap, ◌∙◌, Bool, true, false, [], ◌∷◌, arith, ltb, leb,
  ◌==◌, if◌then◌else◌,
}
use ebpf_nids.Prelude.Int.{ℤ, pos, negsuc}
use ebpf_nids.Prelude.Text.{Bytes}
use ebpf_nids.Prelude.Decimal.{decimal, value_from, value-decimal, AreDigits, decimal-AreDigits}
use ebpf_nids.Loader.Text.{skip_spaces, read_digits}
use ebpf_nids.Loader.Text.Numbers.{read_digits-value_from, skip_spaces-AreDigits}

negative : ℕ → ℤ
negative zero = pos 0
negative (suc n) = negsuc n

unfoldable pub long_plus : ℕ → ℤ × Bool
long_plus n = if ltb n (2 ^ 63) then (pos n, false) else (pos (2 ^ 63 - 1), true)

long_minus : ℕ → ℤ × Bool
unfolding negative
long_minus n = if leb n (2 ^ 63) then (negative n, false) else (negsuc (2 ^ 63 - 1), true)

strtol_signed : Bytes → ℤ × Bool
unfolding long_minus long_plus
strtol_signed [] = (pos 0, false)
strtol_signed (c ∷ cs) =
    if c == b'-'
    then long_minus (read_digits 0 cs)
    else if c == b'+'
    then long_plus (read_digits 0 cs)
    else long_plus (read_digits 0 (c ∷ cs))

unfoldable pub strtol : Bytes → ℤ × Bool
unfolding strtol_signed
strtol s = strtol_signed (skip_spaces s)

strtol_signed-AreDigits : (s : Bytes) → AreDigits s → strtol_signed s ≡ long_plus (value_from 0 s)
unfolding strtol_signed value_from long_plus
strtol_signed-AreDigits [] d = refl
strtol_signed-AreDigits (c ∷ cs) d =
    let minus : (c == b'-') ≡ false = ground (arith, d.0) in
    let plus : (c == b'+') ≡ false = ground (arith, d.0) in
    rw minus (rw plus (ap long_plus (read_digits-value_from 0 (c ∷ cs) d)))

long_plus_small : (n : ℕ) → n < 2 ^ 63 → long_plus n ≡ (pos n, false)
unfolding long_plus
long_plus_small n h = let e : ltb n (2 ^ 63) ≡ true = ground arith in rw e refl

-- What a `long` holds is read as it is written.
pub strtol-decimal : (n : ℕ) → n < 2 ^ 63 → strtol (decimal n) ≡ (pos n, false)
unfolding strtol
strtol-decimal n h =
    ap strtol_signed (skip_spaces-AreDigits (decimal n) (decimal-AreDigits n))
    ∙ strtol_signed-AreDigits (decimal n) (decimal-AreDigits n)
    ∙ ap long_plus (value-decimal n (omega arith))
    ∙ long_plus_small n h
