-- ===== src/Loader/Text/Trim.antt =====
-- What `trim` returns.
use mathlib.Core.List.{reverse, reverse-append, reverse-reverse}
use ebpf_nids.Prelude.{
  ℕ, ◌≡◌, refl, ap, sym, ◌∙◌, true, false, [], ◌∷◌, ◌++◌, if◌then◌else◌, Bool-cases, inl, inr,
}
use ebpf_nids.Prelude.Text.{Bytes}
use ebpf_nids.Loader.Text.{is_blank, skip_blanks, strip_end, trim_tail, trim}

abbrev pub AllBlank : Bytes → Type 0
AllBlank [] = Unit {0}
AllBlank (c ∷ cs) = (is_blank c ≡ true) × AllBlank cs

-- The first byte, if there is one, is not blank.
abbrev pub StartsFull : Bytes → Type 0
StartsFull [] = Unit {0}
StartsFull (c ∷ cs) = is_blank c ≡ false

-- `s` without the blanks at its two ends.
pub record IsTrimOf (s t : Bytes) : Type 0 where
  pub front : Bytes
  pub back : Bytes
  pub front_blank : AllBlank front
  pub back_blank : AllBlank back
  pub splits : s ≡ front ++ (t ++ back)
  pub starts : StartsFull t
  pub ends : StartsFull (reverse t)

AllBlank-append : (a b : Bytes) → AllBlank a → AllBlank b → AllBlank (a ++ b)
AllBlank-append [] b h k = k
AllBlank-append (c ∷ a) b h k = (h.0, AllBlank-append a b h.1 k)

AllBlank-reverse : (a : Bytes) → AllBlank a → AllBlank (reverse a)
AllBlank-reverse [] h = tt
AllBlank-reverse (c ∷ a) h =
    rw (reverse-append (c ∷ []) a)
      (AllBlank-append (reverse a) (c ∷ []) (AllBlank-reverse a h.1) (h.0, tt))

-- What the forward loop skips.
skip_blanks_lem :
    (s : Bytes)
    → (front : Bytes) × AllBlank front × (s ≡ front ++ skip_blanks s) × StartsFull (skip_blanks s)
unfolding skip_blanks
skip_blanks_lem [] = ([], tt, refl, tt)
skip_blanks_lem (c ∷ cs) = elim (Bool-cases (is_blank c)) [
  | inl blank ↦
      let (front, h, e, k) = skip_blanks_lem cs in
      (c ∷ front, (blank, h), rw blank (ap (◌∷◌ c) e), rw blank k)
  | inr full ↦ ([], tt, rw full refl, rw full full)
]

strip_end-step :
    (d : ℕ) (r : Bytes) (c : ℕ)
    → strip_end (d ∷ (r ++ (c ∷ [])))
      ≡ (if is_blank d then strip_end (r ++ (c ∷ [])) else d ∷ (r ++ (c ∷ [])))
unfolding strip_end
strip_end-step d [] c = refl
strip_end-step d (e ∷ r) c = refl

-- The backward loop, on a reversed string whose last byte (the first of the string) is not blank.
strip_end_lem :
    (r : Bytes) (c : ℕ)
    → is_blank c ≡ false
    → (back : Bytes) × (mid : Bytes) × AllBlank back
      × (strip_end (r ++ (c ∷ [])) ≡ mid ++ (c ∷ []))
      × (r ++ (c ∷ []) ≡ back ++ (mid ++ (c ∷ [])))
      × StartsFull (mid ++ (c ∷ []))
unfolding strip_end
strip_end_lem [] c full = ([], [], tt, refl, refl, full)
strip_end_lem (d ∷ r) c full = elim (Bool-cases (is_blank d)) [
  | inl blank ↦
      let (back, mid, h, e, p, k) = strip_end_lem r c full in
      (d ∷ back, mid, (blank, h), strip_end-step d r c ∙ rw blank e, ap (◌∷◌ d) p, k)
  | inr solid ↦ ([], d ∷ r, tt, strip_end-step d r c ∙ rw solid, refl, solid)
]

-- A string that starts with a full byte, less the blanks at its end.
trim_tail_lem :
    (c : ℕ) (cs : Bytes)
    → is_blank c ≡ false
    → (back : Bytes) × (mid : Bytes) × AllBlank back
      × (trim_tail (c ∷ cs) ≡ c ∷ mid)
      × (c ∷ cs ≡ (c ∷ mid) ++ back)
      × StartsFull (reverse (c ∷ mid))
unfolding trim_tail
trim_tail_lem c cs full =
    let (back, mid, h, e, p, k) = strip_end_lem (reverse cs) c full in
    (
      reverse back,
      reverse mid,
      AllBlank-reverse back h,
      ap reverse (ap strip_end (reverse-append (c ∷ []) cs) ∙ e) ∙ reverse-append mid (c ∷ []),
      sym (reverse-reverse (c ∷ cs))
          ∙ ap reverse (reverse-append (c ∷ []) cs ∙ p)
          ∙ reverse-append back (mid ++ (c ∷ []))
          ∙ ap (λ t. t ++ reverse back) (reverse-append mid (c ∷ [])),
      rw (reverse-append (c ∷ []) (reverse mid)) (rw reverse-reverse k),
    )

module _ (front s : Bytes) (h : AllBlank front) (whole : s ≡ front ++ skip_blanks s) where
  trim_tail-IsTrimOf : (t : Bytes) → t ≡ skip_blanks s → StartsFull t → IsTrimOf s (trim_tail t)
  unfolding trim_tail
  trim_tail-IsTrimOf [] e k = record {
    front = front;
    back = [];
    front_blank = h;
    back_blank = tt;
    splits = whole ∙ ap (λ u. front ++ u) (sym e);
    starts = tt;
    ends = tt;
  }
  trim_tail-IsTrimOf (c ∷ cs) e k =
      let (back, mid, hb, shape, p, kb) = trim_tail_lem c cs k in
      record {
        front = front;
        back = back;
        front_blank = h;
        back_blank = hb;
        splits = whole ∙ ap (λ u. front ++ u) (sym e ∙ p ∙ ap (λ t. t ++ back) (sym shape));
        starts = rw shape k;
        ends = rw shape kb;
      }

-- `trim` takes off exactly the blanks at the two ends: what it takes away is blank, and what it
-- returns neither starts nor ends with a blank.
pub trim-IsTrimOf : (s : Bytes) → IsTrimOf s (trim s)
unfolding trim
trim-IsTrimOf s =
    let (front, h, e, k) = skip_blanks_lem s in
    trim_tail-IsTrimOf front s h e (skip_blanks s) refl k

skip_blanks_of_full : (s : Bytes) → StartsFull s → skip_blanks s ≡ s
unfolding skip_blanks
skip_blanks_of_full [] h = refl
skip_blanks_of_full (c ∷ cs) h = rw h

strip_end_of_full : (r : Bytes) → StartsFull r → strip_end r ≡ r
unfolding strip_end
strip_end_of_full [] h = refl
strip_end_of_full (c ∷ []) h = refl
strip_end_of_full (c ∷ d ∷ r) h = rw h

trim_tail_of_full : (s : Bytes) → StartsFull (reverse s) → trim_tail s ≡ s
unfolding trim_tail
trim_tail_of_full [] k = refl
trim_tail_of_full (c ∷ cs) k =
    ap reverse (strip_end_of_full (reverse (c ∷ cs)) k) ∙ reverse-reverse (c ∷ cs)

-- A string that neither starts nor ends with a blank is returned as it is.
pub trim_of_full : (s : Bytes) → StartsFull s → StartsFull (reverse s) → trim s ≡ s
unfolding trim
trim_of_full s h k = rw (skip_blanks_of_full s h) (trim_tail_of_full s k)

-- Trimming twice is trimming once.
pub trim-trim : (s : Bytes) → trim (trim s) ≡ trim s
trim-trim s = let t = trim-IsTrimOf s in trim_of_full (trim s) t.starts t.ends

strip_end-newline :
    (s : Bytes) (c : ℕ) (r : Bytes)
    → reverse r ≡ c ∷ s
    → StartsFull r
    → reverse (strip_end (b'\n' ∷ r)) ≡ c ∷ s
unfolding strip_end is_blank
strip_end-newline s c [] e h = cc
strip_end-newline s c (d ∷ []) e h = e
strip_end-newline s c (d ∷ x ∷ r) e h = rw h e

-- A newline behind a string that neither starts nor ends with a blank is taken off.
pub trim-newline :
    (c : ℕ) (s : Bytes)
    → StartsFull (c ∷ s)
    → StartsFull (reverse (c ∷ s))
    → trim ((c ∷ s) ++ (b'\n' ∷ [])) ≡ c ∷ s
unfolding trim trim_tail
trim-newline c s h k = rw (skip_blanks_of_full ((c ∷ s) ++ (b'\n' ∷ [])) h) (
    ap (λ r. reverse (strip_end r)) (reverse-append (c ∷ s) (b'\n' ∷ []))
    ∙ strip_end-newline s c (reverse (c ∷ s)) (reverse-reverse (c ∷ s)) k)
