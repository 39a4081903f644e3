-- ===== src/Xdp/Races/Words.antt =====
-- `bitmap->bitmap[idx] |= (1ULL << bit)` in `check_port_scan` of
-- project_submit/ebpf_control/src/xdp_blacklist.bpf.c, where several CPUs run the program at once:
-- the word is shared, and the statement is a load and a store.
use Prim.Native.Nat.{bit_or}
use mathlib.Core.Path.{subst}
use ebpf_nids.Prelude.{
  ℕ, ◌^◌, ◌≡◌, refl, Bool, false, ◌||◌, Option, none, some, List, [], ◌∷◌, arith, ◌==◌, Bool-cases,
  inl, inr,
}
use ebpf_nids.Prelude.Bits.{bit_at, bit_at-bit_or}
use ebpf_nids.Xdp.Races.{at_cpu}

-- A word of a source's bitmap, and for each CPU what it has loaded and the bit that it is going to
-- set.
pub record SharedWord : Type 0 where
  pub word : ℕ
  pub loaded : ℕ → Option (ℕ × ℕ)

unfoldable pub load_word : SharedWord → ℕ → ℕ → SharedWord
load_word s cpu bit = record s { loaded = at_cpu s.loaded cpu (some (s.word, bit)) }

unfoldable pub store_word : SharedWord → ℕ → ℕ → ℕ → SharedWord
store_word s cpu old bit = record { word = bit_or old (2 ^ bit); loaded = at_cpu s.loaded cpu none }

-- A run of the CPUs in some order, with the bits that they set, the last one first.
pub data Marking (s : SharedWord) : List ℕ → SharedWord → Type 0 where
  no_marks : Marking s [] s
  word_loaded :
      {t : SharedWord} {bits : List ℕ} (cpu bit : ℕ)
      → Marking s bits t
      → t.loaded cpu ≡ none
      → Marking s bits (load_word t cpu bit)
  word_stored :
      {t : SharedWord} {bits : List ℕ} (cpu old bit : ℕ)
      → Marking s bits t
      → t.loaded cpu ≡ some (old, bit)
      → Marking s (bit ∷ bits) (store_word t cpu old bit)

-- No CPU is amid the statement.
abbrev pub word_at_rest : ℕ → SharedWord
word_at_rest w = record { word = w; loaded = λ cpu. none }

unfoldable pub is_among : ℕ → List ℕ → Bool
is_among j [] = false
is_among j (k ∷ ks) = k == j || is_among j ks

-- Every bit of `x` was set in `w`, or is among `bits`.
abbrev pub HasOnly : ℕ → List ℕ → ℕ → Type 0
HasOnly w bits x = (j : ℕ) → bit_at j w ≡ 0 → is_among j bits ≡ false → bit_at j x ≡ 0

record Sound (w : ℕ) (bits : List ℕ) (s : SharedWord) : Type 0 where
  word : HasOnly w bits s.word
  loaded : (cpu old bit : ℕ) → s.loaded cpu ≡ some (old, bit) → HasOnly w bits old

Sound-load :
    (w : ℕ) (bits : List ℕ) (s : SharedWord) (cpu bit : ℕ)
    → Sound w bits s
    → Sound w bits (load_word s cpu bit)
unfolding load_word
Sound-load w bits s cpu bit b = record {
  word = b.word;
  loaded = λ i old k e. elim (Bool-cases (i == cpu)) [
    | inl t ↦ let same : s.word ≡ old = ground (arith, e, t) in subst (HasOnly w bits) same b.word
    | inr f ↦ b.loaded i old k (ground (arith, e, f))
  ];
}

HasOnly-more : (w bit : ℕ) (bits : List ℕ) (x : ℕ) → HasOnly w bits x → HasOnly w (bit ∷ bits) x
unfolding is_among
HasOnly-more w bit bits x h = λ j clear absent. h j clear (ground (arith, absent))

HasOnly-bit_or :
    (w bit : ℕ) (bits : List ℕ) (old : ℕ)
    → HasOnly w bits old
    → HasOnly w (bit ∷ bits) (bit_or old (2 ^ bit))
unfolding is_among
HasOnly-bit_or w bit bits old h = λ j clear absent.
    let other : (bit == j) ≡ false = ground (arith, absent) in
    let before : bit_at j old ≡ 0 = h j clear (ground (arith, absent)) in
    ground (arith, bit_at-bit_or j bit old, other, before)

Sound-store :
    (w : ℕ) (bits : List ℕ) (s : SharedWord) (cpu old bit : ℕ)
    → Sound w bits s
    → s.loaded cpu ≡ some (old, bit)
    → Sound w (bit ∷ bits) (store_word s cpu old bit)
unfolding store_word
Sound-store w bits s cpu old bit b e = record {
  word = HasOnly-bit_or w bit bits old (b.loaded cpu old bit e);
  loaded = λ i o k h. elim (Bool-cases (i == cpu)) [
    | inl t ↦ absurd (ground (arith, h, t))
    | inr f ↦ HasOnly-more w bit bits o (b.loaded i o k (ground (arith, h, f)))
  ];
}

Marking-Sound :
    {w : ℕ} {bits : List ℕ} {t : SharedWord} → Marking (word_at_rest w) bits t → Sound w bits t
Marking-Sound {w = w} no_marks = record {
  word = λ j clear absent. clear;
  loaded = λ i old k e. absurd (ground (arith, e));
}
Marking-Sound {w = w} (word_loaded {t = t} {bits = bits} cpu bit r e) =
    Sound-load w bits t cpu bit (Marking-Sound r)
Marking-Sound {w = w} (word_stored {t = t} {bits = bits} cpu old bit r e) =
    Sound-store w bits t cpu old bit (Marking-Sound r) e

-- However several CPUs interleave on a word of a source's bitmap, no port is taken for probed that was not:
-- each bit of the word was set before or is one that a CPU set. But a mark may be lost: whatever the
-- word is, there is a run of two CPUs that sets the bits `a` and `b`, and leaves what setting `b`
-- alone gives.
pub word_race :
    {w : ℕ} {bits : List ℕ} {t : SharedWord} (a b : ℕ)
    → Marking (word_at_rest w) bits t
    → HasOnly w bits t.word
      × ((u : SharedWord) × Marking (word_at_rest w) (b ∷ a ∷ []) u × (u.word ≡ bit_or w (2 ^ b)))
unfolding load_word store_word
word_race {w = w} a b r =
    let one = load_word (word_at_rest w) 0 a in
    let two = load_word one 1 b in
    let three = store_word two 0 w a in
    let run : Marking (word_at_rest w) (a ∷ []) three =
      word_stored 0 w a (word_loaded 1 b (word_loaded 0 a no_marks refl) refl) refl in
    ((Marking-Sound r).word, (store_word three 1 w b, word_stored 1 w b run refl, refl))
