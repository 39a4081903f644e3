-- ===== src/Kernel/Tables.antt =====
-- Concrete tables that meet the laws of `HashMap` and `RingBuffer`: association lists with a bound,
-- for running the data plane on inputs.
use ebpf_nids.Prelude.{
  ℕ, ◌≡◌, refl, Bool, true, false, ◌&&◌, Option, none, some, List, [], ◌∷◌, ◌++◌, arith, ltb,
  length, ◌==◌, if◌then◌else◌, Bool-cases, inl, inr,
}
use ebpf_nids.Kernel.{AlertEvent, HashMap, RingBuffer}

module _ {V : Type 0} where
  abbrev find : List (ℕ × V) → ℕ → Option V
  find [] j = none
  find ((k, v) ∷ m) j = if k == j then some v else find m j

  abbrev overwrite : List (ℕ × V) → ℕ → V → List (ℕ × V)
  overwrite [] k v = []
  overwrite ((i, w) ∷ m) k v = if i == k then (k, v) ∷ m else (i, w) ∷ overwrite m k v

  pub find-overwrite :
      (m : List (ℕ × V)) (k : ℕ) (w v : V) (j : ℕ)
      → find m k ≡ some w
      → find (overwrite m k v) j ≡ (if k == j then some v else find m j)
  find-overwrite [] k w v j h = ground arith
  find-overwrite ((i, u) ∷ m) k w v j h = ground (arith, find-overwrite m k w v j)

  abbrev insert : ℕ → List (ℕ × V) → ℕ → V → Bool × List (ℕ × V)
  insert size m k v = if ltb (length m) size then (true, (k, v) ∷ m) else (false, m)

  pub find-insert :
      (size : ℕ) (m : List (ℕ × V)) (k : ℕ) (v : V) (j : ℕ)
      → find (insert size m k v).1 j
        ≡ (if (insert size m k v).0 && k == j then some v else find m j)
  find-insert size m k v j = elim (Bool-cases (ltb (length m) size)) [
    | inl room ↦ rw room refl
    | inr full ↦ rw full refl
  ]

-- A map with room for `size` entries.
abbrev pub table : (V : Type 0) → ℕ → HashMap V
table V size = record {
  State = List (ℕ × V);
  lookup = find;
  store = overwrite;
  update = insert size;
  lookup-store = find-overwrite;
  lookup-update = find-insert size;
}

abbrev push : ℕ → List AlertEvent → AlertEvent → Bool × List AlertEvent
push size r e = if ltb (length r) size then (true, r ++ (e ∷ [])) else (false, r)

pub push_lem :
    (size : ℕ) (r : List AlertEvent) (e : AlertEvent)
    → (push size r e).1 ≡ (if (push size r e).0 then r ++ (e ∷ []) else r)
push_lem size r e = elim (Bool-cases (ltb (length r) size)) [
  | inl room ↦ rw room refl
  | inr full ↦ rw full refl
]

abbrev pub ring : ℕ → RingBuffer
ring size = record {
  State = List AlertEvent;
  output = push size;
  events = λ r. r;
  events-output = push_lem size;
}
