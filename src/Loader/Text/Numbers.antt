-- ===== src/Loader/Text/Numbers.antt =====
-- That `atoi` reads what `printf` writes.
use ebpf_nids.Prelude.{ℕ, ◌+◌, ◌-◌, ◌*◌, ◌^◌, ◌<◌, ◌≡◌, refl, ap, ◌∙◌, false, [], ◌∷◌, arith, ◌==◌}
use ebpf_nids.Prelude.Int.{pos}
use ebpf_nids.Prelude.Text.{Bytes}
use ebpf_nids.Prelude.Decimal.{decimal, value_from, value-decimal, AreDigits, decimal-AreDigits}
use ebpf_nids.Loader.Text.{is_space, skip_spaces, read_digits, long_pos, read_signed, atoi}

pub read_digits-value_from : (n : ℕ) (s : Bytes) → AreDigits s → read_digits n s ≡ value_from n s
unfolding read_digits value_from
read_digits-value_from n [] d = refl
read_digits-value_from n (c ∷ cs) d =
    ground (arith, d.0, d.1, read_digits-value_from (n * 10 + (c - 48)) cs d.2)

read_signed-AreDigits : (s : Bytes) → AreDigits s → read_signed s ≡ long_pos (value_from 0 s)
unfolding read_signed value_from long_pos
read_signed-AreDigits [] d = refl
read_signed-AreDigits (c ∷ cs) d =
    let minus : (c == b'-') ≡ false = ground (arith, d.0) in
    let plus : (c == b'+') ≡ false = ground (arith, d.0) in
    rw minus (rw plus (ap long_pos (read_digits-value_from 0 (c ∷ cs) d)))

pub skip_spaces-AreDigits : (s : Bytes) → AreDigits s → skip_spaces s ≡ s
unfolding skip_spaces is_space
skip_spaces-AreDigits [] d = refl
skip_spaces-AreDigits (c ∷ cs) d = ground (arith, d.0, d.1)

long_pos_small : (n : ℕ) → n < 2 ^ 31 → long_pos n ≡ pos n
unfolding long_pos
long_pos_small n h = ground arith

-- A number that an `int` holds comes back.
pub atoi-decimal : (n : ℕ) → n < 2 ^ 31 → atoi (decimal n) ≡ pos n
unfolding atoi
atoi-decimal n h =
    ap read_signed (skip_spaces-AreDigits (decimal n) (decimal-AreDigits n))
    ∙ read_signed-AreDigits (decimal n) (decimal-AreDigits n)
    ∙ ap long_pos (value-decimal n (omega arith))
    ∙ long_pos_small n h
