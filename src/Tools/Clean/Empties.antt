-- ===== src/Tools/Clean/Empties.antt =====
-- That `clean_map` of examples/c/ebpf/clean_maps.c ends, and when it empties the map.
use ebpf_nids.Prelude.{
  ℕ, zero, suc, ◌+◌, ◌≤◌, ◌≡◌, ◌≢◌, refl, sym, ap, ◌∙◌, ◌⊎◌, inl, inr, false, Option, none, some,
  List, [], ◌∷◌, arith, ◌==◌, length, Bool-cases, Option-cases, ==_iff,
}
use mathlib.Core.Path.{subst}
use ebpf_nids.Tools.Clean.{first_of, behind, next_of, remove, KeyMap, clean_loop, clean_map}

-- No key of the list is `k`.
unfoldable pub Lacks : ℕ → List ℕ → Type 0
Lacks k [] = Unit {0}
Lacks k (x ∷ xs) = ((x == k) ≡ false) × Lacks k xs

unfoldable pub AreDistinct : List ℕ → Type 0
unfolding Lacks
AreDistinct [] = Unit {0}
AreDistinct (x ∷ xs) = Lacks x xs × AreDistinct xs

unfoldable pub last_of : List ℕ → Option ℕ
last_of [] = none
last_of (x ∷ []) = some x
last_of (x ∷ y ∷ xs) = last_of (y ∷ xs)

behind-Lacks : (k : ℕ) (xs : List ℕ) → Lacks k xs → behind xs k ≡ none
unfolding Lacks behind
behind-Lacks k [] h = refl
behind-Lacks k (x ∷ xs) h = ground (arith, behind-Lacks k xs h.1, h.0)

Lacks-remove : (j k : ℕ) (xs : List ℕ) → Lacks j xs → Lacks j (remove k xs)
unfolding Lacks remove
Lacks-remove j k [] h = tt
Lacks-remove j k (x ∷ xs) h = elim (Bool-cases (x == k)) [
  | inl e ↦ rw e h.1
  | inr e ↦ rw e (h.0, Lacks-remove j k xs h.1)
]

AreDistinct-remove : (k : ℕ) (xs : List ℕ) → AreDistinct xs → AreDistinct (remove k xs)
unfolding AreDistinct remove
AreDistinct-remove k [] d = tt
AreDistinct-remove k (x ∷ xs) d = elim (Bool-cases (x == k)) [
  | inl e ↦ rw e d.1
  | inr e ↦ rw e (Lacks-remove x k xs d.0, AreDistinct-remove k xs d.1)
]

-- Taking a key out of distinct ones leaves none of it.
Lacks-remove_self : (k : ℕ) (xs : List ℕ) → AreDistinct xs → Lacks k (remove k xs)
unfolding AreDistinct remove Lacks
Lacks-remove_self k [] d = tt
Lacks-remove_self k (x ∷ xs) d = elim (Bool-cases (x == k)) [
  | inl e ↦ rw (e, sym ((==_iff x k).0 e)) d.0
  | inr e ↦ rw e (e, Lacks-remove_self k xs d.1)
]

-- A list that has a key behind `k` is one longer than without that key.
length-remove_first :
    (y : ℕ) (xs : List ℕ) → first_of xs ≡ some y → length xs ≡ suc (length (remove y xs))
unfolding remove first_of
length-remove_first y [] e = ground arith
length-remove_first y (x ∷ xs) e = ground arith

length-remove_found :
    (k y : ℕ) (xs : List ℕ) → behind xs k ≡ some (some y) → length xs ≡ suc (length (remove y xs))
unfolding behind remove
length-remove_found k y [] e = ground arith
length-remove_found k y (x ∷ xs) e = elim (Bool-cases (x == k)) [
  | inl h ↦ ground (arith, length-remove_first y xs)
  | inr h ↦ ground (arith, length-remove_found k y xs)
]

length-remove_next :
    (k y : ℕ) (xs : List ℕ) → next_of xs k ≡ some y → length xs ≡ suc (length (remove y xs))
unfolding next_of
length-remove_next k y xs e = elim (Option-cases (behind xs k)) [
  | inl h ↦ ground (arith, length-remove_first y xs)
  | inr (none, h) ↦ ground arith
  | inr (some z, h) ↦ ground (arith, length-remove_found k y xs)
]

first_of-none : (xs : List ℕ) → first_of xs ≡ none → xs ≡ []
unfolding first_of
first_of-none [] e = refl
first_of-none (x ∷ xs) e = ground arith

-- Behind a key that is not there nothing comes only in an empty map.
next_of-Lacks : (k : ℕ) (xs : List ℕ) → Lacks k xs → next_of xs k ≡ none → xs ≡ []
unfolding next_of first_of
next_of-Lacks k [] l e = refl
next_of-Lacks k (x ∷ xs) l e = ground (arith, behind-Lacks k (x ∷ xs) l)

Lacks-last : (k x : ℕ) (xs : List ℕ) → last_of xs ≡ some k → Lacks x xs → (x == k) ≡ false
unfolding last_of Lacks
Lacks-last k x [] e l = ground arith
Lacks-last k x (y ∷ []) e l = ground (arith, l.0)
Lacks-last k x (y ∷ z ∷ xs) e l = Lacks-last k x (z ∷ xs) e l.1

behind-last : (k : ℕ) (xs : List ℕ) → AreDistinct xs → last_of xs ≡ some k → behind xs k ≡ some none
unfolding last_of behind first_of AreDistinct
behind-last k [] d e = ground arith
behind-last k (x ∷ []) d e = ground arith
behind-last k (x ∷ y ∷ xs) d e = rw (Lacks-last k x (y ∷ xs) e d.0) (behind-last k (y ∷ xs) d.1 e)

last-behind : (k : ℕ) (xs : List ℕ) → behind xs k ≡ some none → last_of xs ≡ some k
unfolding last_of behind first_of
last-behind k [] e = ground arith
last-behind k (x ∷ []) e = ground arith
last-behind k (x ∷ y ∷ xs) e = ground (arith, last-behind k (y ∷ xs))

-- Behind the last key the kernel finds none.
next_of-last : (k : ℕ) (xs : List ℕ) → AreDistinct xs → last_of xs ≡ some k → next_of xs k ≡ none
unfolding next_of
next_of-last k xs d e = ground (arith, behind-last k xs d e)

-- Behind another key it finds none only in an empty map.
next_of-not_last : (k : ℕ) (xs : List ℕ) → last_of xs ≢ some k → next_of xs k ≡ none → xs ≡ []
unfolding next_of
next_of-not_last k xs ne e = elim (Option-cases (behind xs k)) [
  | inl b ↦ ground (arith, first_of-none xs)
  | inr (none, b) ↦ absurd (ne (last-behind k xs b))
  | inr (some y, b) ↦ ground arith
]

is_last : (k : ℕ) (xs : List ℕ) → (last_of xs ≡ some k) ⊎ (last_of xs ≢ some k)
is_last k xs = elim (last_of xs) as (λ o. (o ≡ some k) ⊎ (o ≢ some k)) [
  | none ↦ inr (ground arith)
  | some x ↦ elim (Bool-cases (x == k)) [
    | inl e ↦ inl (ap some ((==_iff x k).0 e))
    | inr e ↦ inr (ground arith)
  ]
]

module _ (h : KeyMap) where
  -- The call returned an empty map and the number `n`.
  unfoldable pub Emptied : Option (h.State × ℕ) → ℕ → Type 0
  Emptied o n = (m : h.State) × (o ≡ some (m, n)) × (h.keys m ≡ [])

  -- A step that finds a key leaves a shorter map, whose last key is not the one at hand.
  clean_loop-step :
      (fuel : ℕ) (m : h.State) (key y count : ℕ)
      → next_of (h.keys m) key ≡ some y
      → clean_loop h (suc fuel) m key count ≡ clean_loop h fuel (h.delete_elem m y) y (count + 1)
  unfolding clean_loop
  clean_loop-step fuel m key y count e = rw (h.next_lem m key, e, clean_loop) refl

  clean_loop-stop :
      (fuel : ℕ) (m : h.State) (key count : ℕ)
      → next_of (h.keys m) key ≡ none
      → clean_loop h (suc fuel) m key count ≡ some (m, count)
  unfolding clean_loop
  clean_loop-stop fuel m key count e = rw (h.next_lem m key, e, clean_loop) refl

  clean_loop-Emptied_stop :
      (fuel : ℕ) (m : h.State) (key count : ℕ)
      → next_of (h.keys m) key ≡ none
      → h.keys m ≡ []
      → Emptied (clean_loop h (suc fuel) m key count) (count + length (h.keys m))
  unfolding Emptied
  clean_loop-Emptied_stop fuel m key count e l = (
    m,
    clean_loop-stop fuel m key count e ∙ ap (λ n. some (m, n)) (omega (arith, ap length l)),
    l,
  )

  clean_loop-Emptied :
      (fuel : ℕ) (m : h.State) (key count : ℕ)
      → length (h.keys m) ≤ fuel
      → AreDistinct (h.keys m)
      → (next_of (h.keys m) key ≡ none → h.keys m ≡ [])
      → Emptied (clean_loop h (suc fuel) m key count) (count + length (h.keys m))
  clean_loop-Emptied zero m key count le d l = elim (Option-cases (next_of (h.keys m) key)) [
    | inl e ↦ clean_loop-Emptied_stop zero m key count e (l e)
    | inr (y, e) ↦ absurd (omega (arith, length-remove_next key y (h.keys m) e))
  ]
  clean_loop-Emptied (suc f) m key count le d l = elim (Option-cases (next_of (h.keys m) key)) [
    | inl e ↦ clean_loop-Emptied_stop (suc f) m key count e (l e)
    | inr (y, e) ↦
        let gone = h.delete_lem m y in
        let shorter : length (h.keys m) ≡ suc (length (h.keys (h.delete_elem m y))) =
          length-remove_next key y (h.keys m) e ∙ ap (λ ks. suc (length ks)) (sym gone) in
        rw (clean_loop-step (suc f) m key y count e) (
          subst (Emptied (clean_loop h (suc f) (h.delete_elem m y) y (count + 1)))
            (omega (arith, shorter))
            (clean_loop-Emptied f (h.delete_elem m y) y (count + 1) (omega (arith, shorter))
              (rw gone (AreDistinct-remove y (h.keys m) d))
              (next_of-Lacks y (h.keys (h.delete_elem m y))
                (rw gone (Lacks-remove_self y (h.keys m) d)))))
  ]

  -- The map after `clean_map`, with the fuel that its keys need: if the last key is 0 the loop does
  -- not start, and nothing is deleted.
  unfoldable pub CleanSpec : h.State → ℕ → Type 0
  unfolding Emptied
  CleanSpec m fuel =
      ((last_of (h.keys m) ≡ some 0) × (clean_map h fuel m ≡ some (m, 0)))
      ⊎ ((last_of (h.keys m) ≢ some 0) × Emptied (clean_map h fuel m) (length (h.keys m)))

  -- For a map whose keys are distinct, `clean_map` ends after at most one step more than the map has
  -- keys. It empties the map and returns the number of its entries, unless the last key in the
  -- kernel's order is 0, the key that the iteration starts behind: then it deletes nothing.
  pub clean_map_lem :
      (m : h.State) (fuel : ℕ)
      → AreDistinct (h.keys m)
      → length (h.keys m) ≤ fuel
      → CleanSpec m (suc fuel)
  unfolding CleanSpec clean_map
  clean_map_lem m fuel d le = elim (is_last 0 (h.keys m)) [
    | inl e ↦ inl (e, clean_loop-stop fuel m 0 0 (next_of-last 0 (h.keys m) d e))
    | inr ne ↦ inr (
      ne,
      subst (Emptied (clean_loop h (suc fuel) m 0 0)) (omega arith)
          (clean_loop-Emptied fuel m 0 0 le d (next_of-not_last 0 (h.keys m) ne)),
    )
  ]
