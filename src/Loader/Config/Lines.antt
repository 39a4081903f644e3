-- ===== src/Loader/Config/Lines.antt =====
-- How `load_config_file` of project_submit/ebpf_control/src/loader.c reads a line `key=value`.
use mathlib.Core.List.{reverse, reverse-append}
use ebpf_nids.Prelude.{
  ℕ, suc, ◌+◌, ◌-◌, ◌≤◌, ◌<◌, ◌≡◌, refl, ap, ◌∙◌, false, ◌||◌, none, some, List, [], ◌∷◌, ◌++◌,
  arith, length, ◌==◌,
}
use ebpf_nids.Prelude.Text.{Bytes, cstr, before}
use ebpf_nids.Loader.Text.{is_blank, trim, fgets_from, fgets_lines}
use ebpf_nids.Loader.Text.Trim.{StartsFull, trim_of_full, trim-newline}
use ebpf_nids.Loader.Config.{
  AppConfig, Loaded, after_equals, set_key, assign, load_key, load_line, load_lines,
}

-- No byte of the text is `b`.
unfoldable pub Avoids : ℕ → Bytes → Type 0
Avoids b [] = Unit {0}
Avoids b (c ∷ cs) = ((c == b) ≡ false) × Avoids b cs

pub Avoids-append : (b : ℕ) (s t : Bytes) → Avoids b s → Avoids b t → Avoids b (s ++ t)
unfolding Avoids
Avoids-append b [] t h k = k
Avoids-append b (c ∷ cs) t h k = (h.0, Avoids-append b cs t h.1 k)

-- `fgets` reads a line that fits, with its newline.
fgets_from-line :
    (room left : ℕ) (line rest : Bytes)
    → Avoids b'\n' line
    → suc (length line) ≤ left
    → fgets_from room left (line ++ (b'\n' ∷ rest))
      ≡ (line ++ (b'\n' ∷ [])) ∷ fgets_from room room rest
unfolding fgets_from Avoids
fgets_from-line room left [] rest a fits = refl
fgets_from-line room left (c ∷ cs) rest a fits =
    let whole : (c == b'\n' || left == 1) ≡ false = ground (arith, a.0) in
    rw whole (rw (fgets_from-line room (left - 1) cs rest a.1 (omega arith)) refl)

cstr-Avoids : (s : Bytes) → Avoids 0 s → cstr s ≡ s
unfolding cstr Avoids
cstr-Avoids [] a = refl
cstr-Avoids (c ∷ cs) a = ground (arith, cstr-Avoids cs a.1, a.0)

before-Avoids : (b : ℕ) (s : Bytes) → Avoids b s → before b s ≡ s
unfolding before Avoids
before-Avoids b [] a = refl
before-Avoids b (c ∷ cs) a = ground (arith, before-Avoids b cs a.1, a.0)

-- What stands before the first `b` of a text that has one.
before-found : (b : ℕ) (s t : Bytes) → Avoids b s → before b (s ++ (b ∷ t)) ≡ s
unfolding before Avoids
before-found b [] t a = ground arith
before-found b (c ∷ cs) t a = ground (arith, before-found b cs t a.1, a.0)

after_equals-found : (s t : Bytes) → Avoids b'=' s → after_equals (s ++ (b'=' ∷ t)) ≡ some t
unfolding after_equals Avoids
after_equals-found [] t a = refl
after_equals-found (c ∷ cs) t a = ground (arith, after_equals-found cs t a.1, a.0)

-- A text that can be a value: no NUL, newline or `#`, and no blank at its ends.
pub record IsPlain (s : Bytes) : Type 0 where
  pub no_nul : Avoids 0 s
  pub no_newline : Avoids b'\n' s
  pub no_hash : Avoids b'#' s
  pub starts : StartsFull s
  pub ends : StartsFull (reverse s)

-- A key, which in addition has no `=`, and is not empty.
abbrev pub IsKey : Bytes → Type 0
IsKey [] = ⊥
IsKey (c ∷ cs) = IsPlain (c ∷ cs) × Avoids b'=' (c ∷ cs)

abbrev pub pair_line : Bytes → Bytes → Bytes
pair_line key value = key ++ (b'=' ∷ value)

pair_line-Avoids :
    (b : ℕ) (key value : Bytes)
    → (b'=' == b) ≡ false
    → Avoids b key
    → Avoids b value
    → Avoids b (pair_line key value)
unfolding Avoids
pair_line-Avoids b key value e k v = Avoids-append b key (b'=' ∷ value) k (e, v)

StartsFull-middle :
    (s : Bytes) (c : ℕ) (t : Bytes)
    → StartsFull s
    → is_blank c ≡ false
    → StartsFull ((s ++ (c ∷ [])) ++ t)
StartsFull-middle [] c t h k = k
StartsFull-middle (x ∷ s) c t h k = h

pair_line-ends :
    (key value : Bytes) → StartsFull (reverse value) → StartsFull (reverse (pair_line key value))
unfolding is_blank
pair_line-ends key value h =
    rw (reverse-append key (b'=' ∷ value), reverse-append (b'=' ∷ []) value)
      (StartsFull-middle (reverse value) b'=' (reverse key) h refl)

-- A line `key=value` sets the key to the value, whatever its number.
load_line-pair :
    (out : AppConfig) (n : ℕ) (key value : Bytes)
    → IsKey key
    → IsPlain value
    → load_line out n (pair_line key value ++ (b'\n' ∷ [])) ≡ set_key out key value
unfolding load_line Avoids
load_line-pair out n [] value k v = absurd k
load_line-pair out n (c ∷ key) value k v =
    let s = pair_line (c ∷ key) value in
    let line = s ++ (b'\n' ∷ []) in
    let no_nul : Avoids 0 line =
      Avoids-append 0 s (b'\n' ∷ []) (pair_line-Avoids 0 (c ∷ key) value refl k.0.no_nul v.no_nul)
        (refl, tt) in
    let no_hash : Avoids b'#' line =
      Avoids-append b'#' s (b'\n' ∷ [])
        (pair_line-Avoids b'#' (c ∷ key) value refl k.0.no_hash v.no_hash) (refl, tt) in
    let read : trim (before b'#' (cstr line)) ≡ s =
      ap (λ t. trim (before b'#' t)) (cstr-Avoids line no_nul)
      ∙ ap trim (before-Avoids b'#' line no_hash)
      ∙ trim-newline c (key ++ (b'=' ∷ value)) k.0.starts (pair_line-ends (c ∷ key) value v.ends) in
    ap (load_key out n) read
    ∙ ap (assign out n s) (after_equals-found (c ∷ key) value k.1)
    ∙ ap (λ t. set_key out (trim t) (trim value)) (before-found b'=' (c ∷ key) value k.1)
    ∙ ap (λ t. set_key out t (trim value)) (trim_of_full (c ∷ key) k.0.starts k.0.ends)
    ∙ ap (set_key out (c ∷ key)) (trim_of_full value v.starts v.ends)

-- A setting, and the file that has a line for each.
pub record Setting : Type 0 where
  pub key : Bytes
  pub value : Bytes

unfoldable pub print_settings : List Setting → Bytes
print_settings [] = []
print_settings (p ∷ ps) = pair_line p.key p.value ++ (b'\n' ∷ print_settings ps)

-- Each setting can stand on a line of its own that fits in the buffer.
abbrev pub ArePrintable : List Setting → Type 0
ArePrintable [] = Unit {0}
ArePrintable (p ∷ ps) =
    (IsKey p.key × IsPlain p.value × (length (pair_line p.key p.value) < 511)) × ArePrintable ps

-- The settings made one after the other, until one is refused.
unfoldable pub set_all : AppConfig → List Setting → Loaded
set_all out [] = (out, none)
set_all out (p ∷ ps) =
    let r = set_key out p.key p.value in
    let rest = set_all r.0 ps in elim r.1 [ none ↦ rest | some e ↦ (r.0, some e) ]

key-Avoids_newline : (key : Bytes) → IsKey key → Avoids b'\n' key
unfolding Avoids
key-Avoids_newline [] k = absurd k
key-Avoids_newline (c ∷ cs) k = k.0.no_newline

pub load_lines-print_settings :
    (ps : List Setting) (out : AppConfig) (n : ℕ)
    → ArePrintable ps
    → load_lines out n (fgets_lines 511 (print_settings ps)) ≡ set_all out ps
unfolding load_lines set_all print_settings fgets_from
load_lines-print_settings [] out n h = refl
load_lines-print_settings (p ∷ ps) out n ((k, v, fits), rest) =
    let line =
      fgets_from-line 511 511 (pair_line p.key p.value) (print_settings ps)
        (pair_line-Avoids b'\n' p.key p.value refl (key-Avoids_newline p.key k) v.no_newline)
        (omega arith) in
    let r = set_key out p.key p.value in
    let lines = fgets_lines 511 (print_settings ps) in
    ap (load_lines out n) line
    ∙ ap (λ (t : Loaded). elim t.1 [ none ↦ load_lines t.0 (n + 1) lines | some e ↦ (t.0, some e) ])
        (load_line-pair out (n + 1) p.key p.value k v)
    ∙ ap (λ (t : Loaded). elim r.1 [ none ↦ t | some e ↦ (r.0, some e) ])
        (load_lines-print_settings ps r.0 (n + 1) rest)
