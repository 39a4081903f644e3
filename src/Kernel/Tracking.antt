-- ===== src/Kernel/Tracking.antt =====
-- BPF_MAP_TYPE_HASH as the sample programs of examples/ use it: with `bpf_map_delete_elem`, and
-- without writes through the pointer that a lookup returns.
use mathlib.Core.Path.{subst}
use ebpf_nids.Prelude.{
  arith, Bool-cases, inl, inr, ℕ, ◌≡◌, refl, Bool, true, ◌&&◌, Option, none, some, List, [], ◌∷◌,
  ◌==◌, if◌then◌else◌, false, ltb, length,
}

-- The flag of `update` says whether it succeeded; a failed one changes nothing.
pub record TrackingMap (V : Type 0) : Type 1 where
  pub State : Type 0
  pub lookup : State → ℕ → Option V
  pub update : State → ℕ → V → Bool × State
  pub delete : State → ℕ → State
  pub lookup-update :
      (m : State) (k : ℕ) (v : V) (j : ℕ)
      → lookup (update m k v).1 j ≡ (if (update m k v).0 && k == j then some v else lookup m j)
  pub lookup-delete :
      (m : State) (k j : ℕ) → lookup (delete m k) j ≡ (if k == j then none else lookup m j)

-- A table that has the laws: the pairs of the last writes, without bound.
module _ {V : Type 0} where
  abbrev entry : List (ℕ × Option V) → ℕ → Option V
  entry [] j = none
  entry ((k, v) ∷ m) j = if k == j then v else entry m j

abbrev pub journal : (V : Type 0) → TrackingMap V
journal V = record {
  State = List (ℕ × Option V);
  lookup = entry;
  update = λ m k v. (true, (k, some v) ∷ m);
  delete = λ m k. (k, none) ∷ m;
  lookup-update = λ m k v j. refl;
  lookup-delete = λ m k j. refl;
}

-- A table that has the laws and no room for more than `n` keys.
module _ {V : Type 0} where
  abbrev find : List (ℕ × V) → ℕ → Option V
  find [] j = none
  find ((k, v) ∷ m) j = if k == j then some v else find m j

  abbrev without : List (ℕ × V) → ℕ → List (ℕ × V)
  without [] j = []
  without ((k, v) ∷ m) j = if k == j then without m j else (k, v) ∷ without m j

  pub find-without :
      (m : List (ℕ × V)) (k j : ℕ) → find (without m k) j ≡ (if k == j then none else find m j)
  find-without [] k j = ground arith
  find-without ((x, v) ∷ m) k j = ground (arith, find-without m k j)

  abbrev put : ℕ → List (ℕ × V) → ℕ → V → Bool × List (ℕ × V)
  put n m k v =
      let rest = without m k in if ltb (length rest) n then (true, (k, v) ∷ rest) else (false, m)

  pub find-put :
      (n : ℕ) (m : List (ℕ × V)) (k : ℕ) (v : V) (j : ℕ)
      → find (put n m k v).1 j ≡ (if (put n m k v).0 && k == j then some v else find m j)
  find-put n m k v j = ground (arith, find-without m k j)

abbrev pub bounded : ℕ → (V : Type 0) → TrackingMap V
bounded n V = record {
  State = List (ℕ × V);
  lookup = find;
  update = put n;
  delete = without;
  lookup-update = find-put n;
  lookup-delete = find-without;
}

-- What holds of every value in the map is kept by an update with such a value and by a deletion.
module _ {V : Type 0} (h : TrackingMap V) (P : V → Type 0) where
  abbrev pub HoldsAll : h.State → Type 0
  HoldsAll m = (k : ℕ) (v : V) → h.lookup m k ≡ some v → P v

  pub HoldsAll-update :
      (m : h.State) (k : ℕ) (v : V) → HoldsAll m → P v → HoldsAll (h.update m k v).1
  HoldsAll-update m k v a p j w e = elim (Bool-cases ((h.update m k v).0 && k == j)) [
    | inl t ↦ subst P (ground (arith, h.lookup-update m k v j)) p
    | inr f ↦ a j w (ground (arith, h.lookup-update m k v j))
  ]

  pub HoldsAll-delete : (m : h.State) (k : ℕ) → HoldsAll m → HoldsAll (h.delete m k)
  HoldsAll-delete m k a j w e = elim (Bool-cases (k == j)) [
    | inl t ↦ absurd (ground (arith, h.lookup-delete m k j))
    | inr f ↦ a j w (ground (arith, h.lookup-delete m k j))
  ]
