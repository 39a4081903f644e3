-- ===== src/Tools/Clean/Single.antt =====
-- examples/c/clean_maps.c, which empties one map each hour and never ends. Its inner loop is that of
-- `clean_map` of examples/c/ebpf/clean_maps.c.
use ebpf_nids.Prelude.{
  ℕ, suc, ◌≤◌, ◌≡◌, refl, Option, some, List, [], ◌∷◌, length, ◌>>=◌, ap, inl, inr,
}
use ebpf_nids.Prelude.Int.{ℤ, pos, negsuc}
use ebpf_nids.Prelude.Text.{Bytes}
use ebpf_nids.Loader.Text.{atoi}
use ebpf_nids.Tools.Clean.{KeyMap, clean_map}
use ebpf_nids.Tools.Clean.Empties.{AreDistinct, Emptied, CleanSpec, clean_map_lem}

module _ (h : KeyMap) where
  -- A run: the program ends with a status, or goes on with the map, after the counts that it has
  -- printed.
  pub data Single : Type 0 where
    refused : ℕ → Single
    cleaning : h.State → List ℕ → Single

  -- The rounds of `while (1)`, by what others do to the map while the program sleeps behind each of
  -- them. `none` says that the fuel ran out.
  unfoldable pub single_rounds : ℕ → h.State → List (h.State → h.State) → Option (h.State × List ℕ)
  unfolding clean_map
  single_rounds fuel m [] = some (m, [])
  single_rounds fuel m (meanwhile ∷ nights) = do
    r ← clean_map h fuel m
    rest ← single_rounds fuel (meanwhile r.0) nights
    some (rest.0, r.1 ∷ rest.1)

  single_opened : ℕ → h.State → List (h.State → h.State) → ℤ → Option Single
  unfolding single_rounds
  single_opened fuel m nights (negsuc e) = some (refused 1)
  single_opened fuel m nights (pos fd) = do r ← single_rounds fuel m nights; some (cleaning r.0 r.1)

  -- `main`, by the arguments behind the program's name. `get_fd` is what `bpf_map_get_fd_by_id`
  -- returns for a number.
  unfoldable pub single_main :
      ℕ → (ℤ → ℤ) → h.State → List (h.State → h.State) → List Bytes → Option Single
  unfolding single_opened
  single_main fuel get_fd m nights (arg ∷ []) = single_opened fuel m nights (get_fd (atoi arg))
  single_main fuel get_fd m nights _ = some (refused 1)

  clean_map-ends :
      (fuel : ℕ) (m : h.State)
      → AreDistinct (h.keys m)
      → length (h.keys m) ≤ fuel
      → (m' : h.State) × (n : ℕ) × (clean_map h (suc fuel) m ≡ some (m', n))
  unfolding CleanSpec Emptied
  clean_map-ends fuel m d le = elim (clean_map_lem h m fuel d le) [
    | inl (zero_last, kept) ↦ (m, 0, kept)
    | inr (other, emptied) ↦ (emptied.0, length (h.keys m), emptied.1)
  ]

  -- Where the map's keys are distinct and no more than `fuel`, whoever changes it, every round of
  -- the loop ends, and prints one count.
  pub single_rounds_lem :
      (fuel : ℕ) (nights : List (h.State → h.State)) (m : h.State)
      → ((s : h.State) → AreDistinct (h.keys s) × (length (h.keys s) ≤ fuel))
      → (m' : h.State) × (counts : List ℕ) × (single_rounds (suc fuel) m nights ≡ some (m', counts))
        × (length counts ≡ length nights)
  unfolding single_rounds
  single_rounds_lem fuel [] m bounded = (m, [], refl, refl)
  single_rounds_lem fuel (meanwhile ∷ nights) m bounded =
      let (m', n, cleaned) = clean_map-ends fuel m (bounded m).0 (bounded m).1 in
      let (last, counts, done, many) = single_rounds_lem fuel nights (meanwhile m') bounded in
      (last, n ∷ counts, rw cleaned (rw done refl), ap suc many)
