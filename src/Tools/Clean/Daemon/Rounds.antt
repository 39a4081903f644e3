-- ===== src/Tools/Clean/Daemon/Rounds.antt =====
-- What a round of the daemon of examples/c/ebpf/clean_maps.c does to the maps.
use mathlib.Core.Path.{subst}
use mathlib.Core.Option.{some-injective}
use ebpf_nids.Prelude.{
  ℕ, suc, ◌+◌, ◌-◌, ◌≤◌, ◌≡◌, refl, sym, ◌∙◌, ◌⊎◌, inl, inr, false, Option, some, List, [], ◌∷◌,
  arith, ◌==◌, length, Bool-cases, Option-cases, ==_iff, eq_refl,
}
use ebpf_nids.Tools.Clean.{KeyMap, clean_map}
use ebpf_nids.Tools.Clean.Empties.{Lacks, AreDistinct, last_of, Emptied, CleanSpec, clean_map_lem}
use ebpf_nids.Tools.Clean.Daemon.{Daemon, put, clean_id, clean_ids}

module _ (h : KeyMap) (fuel : ℕ) where
  -- The map is empty, or its last key in the kernel's order is 0.
  abbrev pub IsClean : h.State → Type 0
  IsClean m = (h.keys m ≡ []) ⊎ (last_of (h.keys m) ≡ some 0)

  -- Its keys are distinct and no more than the fuel.
  abbrev pub IsFine : h.State → Type 0
  IsFine m = AreDistinct (h.keys m) × (length (h.keys m) ≤ fuel)

  -- What holds of the map with an id, if it can be opened.
  abbrev pub At : (h.State → Type 0) → (ℕ → Option h.State) → ℕ → Type 0
  At P maps id = (m : h.State) → maps id ≡ some m → P m

  At-put :
      (P : h.State → Type 0) (maps : ℕ → Option h.State) (id : ℕ) (m : h.State)
      → P m
      → At P (put h maps id m) id
  At-put P maps id m p m' found =
      let stored : put h maps id m id ≡ some m = rw (eq_refl id) refl in
      subst P (some-injective m m' (sym stored ∙ found)) p

  abbrev Cleaned : h.State → Type 0
  Cleaned m =
      (m' : h.State) × (n : ℕ) × (clean_map h (suc fuel) m ≡ some (m', n)) × IsClean m' × IsFine m'

  clean_map-Cleaned : (m : h.State) → IsFine m → Cleaned m
  unfolding CleanSpec Emptied AreDistinct
  clean_map-Cleaned m f = cleaned (clean_map_lem h m fuel f.0 f.1)
    where
      cleaned : CleanSpec h m (suc fuel) → Cleaned m
      cleaned (inl (last, done)) = (m, 0, done, inr last, f)
      cleaned (inr (ne, (m', done, empty))) =
          (m', length (h.keys m), done, inl empty, rw empty (tt, omega arith))

  -- What the cleaning of one id does.
  record Step (s : Daemon h) (id : ℕ) (s' : Daemon h) : Type 0 where
    done : clean_id h (suc fuel) s id ≡ some s'
    descriptors : s'.descriptors ≡ s.descriptors
    clean : At IsClean s'.maps id
    others : (j : ℕ) → (id == j) ≡ false → s'.maps j ≡ s.maps j

  clean_id-Step :
      (s : Daemon h) (id : ℕ)
      → At IsFine s.maps id
      → (s' : Daemon h) × Step s id s' × At IsFine s'.maps id
  unfolding clean_id
  clean_id-Step s id f = elim (Option-cases (s.maps id)) [
    | inl e ↦ (
      s,
      record {
        done = rw (e, clean_id) refl;
        descriptors = refl;
        clean = λ m found. absurd (ground (arith, e, found));
        others = λ j ne. refl;
      },
      f,
    )
    | inr (m, e) ↦
        let (m', n, done, clean, fine) = clean_map-Cleaned m (f m e) in
        let s' : Daemon h = record {
          maps = put h s.maps id m';
          descriptors = s.descriptors + 1 - 1;
        } in
        (
          s',
          record {
            done = rw (e, clean_id) (rw done refl);
            descriptors = omega arith;
            clean = At-put IsClean s.maps id m' clean;
            others = λ j ne. rw ne refl;
          },
          At-put IsFine s.maps id m' fine,
        )
  ]

  -- A map that a step did not touch has what it had.
  At-untouched :
      (P : h.State → Type 0) (maps maps' : ℕ → Option h.State) (j : ℕ)
      → maps' j ≡ maps j
      → At P maps j
      → At P maps' j
  At-untouched P maps maps' j same p = λ m found. p m (sym same ∙ found)

  step-IsFine :
      (s s' : Daemon h) (id : ℕ)
      → Step s id s'
      → At IsFine s'.maps id
      → ((j : ℕ) → At IsFine s.maps j)
      → (j : ℕ) → At IsFine s'.maps j
  step-IsFine s s' id step now f j = elim (Bool-cases (id == j)) [
    | inl e ↦ subst (At IsFine s'.maps) ((==_iff id j).0 e) now
    | inr ne ↦ At-untouched IsFine s.maps s'.maps j (step.others j ne) (f j)
  ]

  -- What a round over some ids does: it ends, no descriptor stays open, a map whose id is listed is
  -- clean, and the others are untouched.
  pub record Round (s : Daemon h) (ids : List ℕ) (s' : Daemon h) : Type 0 where
    pub done : clean_ids h (suc fuel) s ids ≡ some s'
    pub descriptors : s'.descriptors ≡ s.descriptors
    pub clean : (id : ℕ) → Lacks id ids ⊎ At IsClean s'.maps id
    pub others : (j : ℕ) → Lacks j ids → s'.maps j ≡ s.maps j

  cons-Round :
      (s s' t : Daemon h) (id : ℕ) (ids : List ℕ)
      → Step s id s'
      → Round s' ids t
      → Round s (id ∷ ids) t
  unfolding Lacks clean_ids
  cons-Round s s' t id ids step rest = record {
    done = rw (step.done, clean_ids) rest.done;
    descriptors = omega (arith, step.descriptors, rest.descriptors);
    clean = clean;
    others = λ j l. rest.others j l.1 ∙ step.others j l.0;
  }
    where
      clean : (j : ℕ) → Lacks j (id ∷ ids) ⊎ At IsClean t.maps j
      clean j = elim (rest.clean j) [
        | inr c ↦ inr c
        | inl l ↦ elim (Bool-cases (id == j)) [
          | inr ne ↦ inl (ne, l)
          | inl e ↦ inr (
              At-untouched IsClean s'.maps t.maps j (rest.others j l)
                (subst (At IsClean s'.maps) ((==_iff id j).0 e) step.clean))
        ]
      ]

  -- Where each map that can be opened has distinct keys, and no more than the fuel, a round of the
  -- daemon ends and closes what it opens. Each map that is listed and can be opened is then empty, unless its
  -- last key in the kernel's order is 0, and no map that is not listed is touched.
  pub clean_ids-Round :
      (s : Daemon h) (ids : List ℕ)
      → ((j : ℕ) → At IsFine s.maps j)
      → (s' : Daemon h) × Round s ids s'
  unfolding Lacks clean_ids
  clean_ids-Round s [] f =
      (s, record { done = refl; descriptors = refl; clean = λ id. inl tt; others = λ j l. refl })
  clean_ids-Round s (id ∷ ids) f =
      let (s', step, now) = clean_id-Step s id (f id) in
      let (t, rest) = clean_ids-Round s' ids (step-IsFine s s' id step now f) in
      (t, cons-Round s s' t id ids step rest)
