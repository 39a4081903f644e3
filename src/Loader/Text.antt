-- ===== src/Loader/Text.antt =====
-- The text routines of project_submit/ebpf_control/src/loader.c: `trim`, and the calls of the C
-- library by which `load_config_file` reads its lines.
pub mod Trim
pub mod Numbers
use mathlib.Core.List.{reverse}
use ebpf_nids.Prelude.{
  ℕ, zero, suc, ◌+◌, ◌-◌, ◌*◌, ◌%◌, ◌^◌, min, Bool, true, false, ◌&&◌, ◌||◌, List, [], ◌∷◌, ltb,
  leb, ◌==◌, take, if◌then◌else◌,
}
use ebpf_nids.Prelude.Int.{ℤ, pos, negsuc, signed32}
use ebpf_nids.Prelude.Text.{Bytes}

-- The four characters that `trim` takes off.
unfoldable pub is_blank : ℕ → Bool
is_blank c = c == b' ' || c == b'\t' || c == b'\n' || c == b'\r'

unfoldable pub skip_blanks : Bytes → Bytes
skip_blanks [] = []
skip_blanks (c ∷ cs) = if is_blank c then skip_blanks cs else c ∷ cs

-- The backward loop, on the reversed string: `end` walks down while `end > s`.
unfoldable pub strip_end : Bytes → Bytes
strip_end [] = []
strip_end (c ∷ []) = c ∷ []
strip_end (c ∷ d ∷ r) = if is_blank c then strip_end (d ∷ r) else c ∷ d ∷ r

unfoldable pub trim_tail : Bytes → Bytes
trim_tail [] = []
trim_tail (c ∷ cs) = reverse (strip_end (reverse (c ∷ cs)))

unfoldable pub trim : Bytes → Bytes
unfolding trim_tail
trim s = trim_tail (skip_blanks s)

-- `snprintf(dst, size, "%s", s)`
abbrev pub copy : ℕ → Bytes → Bytes
copy size s = take (size - 1) s

-- `fgets` on a buffer of `suc room` bytes, until the end of the file: the lines with their newline,
-- and a longer line in pieces of `room` bytes. `left` is the room that the current piece has.
add_first : ℕ → List Bytes → List Bytes
add_first c [] = (c ∷ []) ∷ []
add_first c (l ∷ ls) = (c ∷ l) ∷ ls

unfoldable pub fgets_from : ℕ → ℕ → Bytes → List Bytes
unfolding add_first
fgets_from room left [] = []
fgets_from room left (c ∷ cs) =
    let full = c == b'\n' || left == 1 in
    let rest = fgets_from room (if full then room else left - 1) cs in
    if full then (c ∷ []) ∷ rest else add_first c rest

abbrev pub fgets_lines : ℕ → Bytes → List Bytes
fgets_lines room file = fgets_from room room file

-- `isspace`
unfoldable pub is_space : ℕ → Bool
is_space c = c == b' ' || (leb 9 c && leb c 13)

unfoldable pub skip_spaces : Bytes → Bytes
unfolding is_space
skip_spaces [] = []
skip_spaces (c ∷ cs) = if is_space c then skip_spaces cs else c ∷ cs

unfoldable pub read_digits : ℕ → Bytes → ℕ
read_digits n [] = n
read_digits n (c ∷ cs) =
    let rest = read_digits (n * 10 + (c - 48)) cs in if leb 48 c && leb c 57 then rest else n

-- The `int` that a `long` of glibc's `strtol`, which stops at LONG_MIN and LONG_MAX, is cast to.
long_pos : ℕ → ℤ
long_pos n = signed32 (min n (2 ^ 63 - 1) % 2 ^ 32)

long_neg : ℕ → ℤ
long_neg n = signed32 ((2 ^ 32 - min n (2 ^ 63) % 2 ^ 32) % 2 ^ 32)

read_signed : Bytes → ℤ
read_signed [] = pos 0
read_signed (c ∷ cs) =
    if c == b'-'
    then long_neg (read_digits 0 cs)
    else if c == b'+'
    then long_pos (read_digits 0 cs)
    else long_pos (read_digits 0 (c ∷ cs))

-- `atoi`
unfoldable pub atoi : Bytes → ℤ
unfolding read_signed skip_spaces read_digits is_space long_pos long_neg
atoi s = read_signed (skip_spaces s)
