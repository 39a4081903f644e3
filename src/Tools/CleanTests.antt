-- ===== src/Tools/CleanTests.antt =====
-- Runs of the map cleaner, and its theorems at concrete inputs.
use mathlib.Core.Option.{some-injective}
use mathlib.Core.Path.{subst}
use ebpf_nids.Prelude.{
  ℕ, ◌≡◌, refl, sym, ◌∙◌, Bool-cases, inl, inr, true, false, none, some, List, [], ◌∷◌, arith, ◌==◌,
  if◌then◌else◌, Option,
}
use ebpf_nids.Prelude.Text.{codes}
use ebpf_nids.Loader.Text.{skip_spaces, read_digits, atoi}
use ebpf_nids.Tools.Clean.{KeyMap, next_of, behind, remove, clean_loop, clean_map}
use ebpf_nids.Tools.Clean.Empties.{CleanSpec, AreDistinct, Lacks, clean_map_lem}
use ebpf_nids.Tools.Clean.Daemon.{Daemon, Night, ids_of, as_id, clean_id, clean_ids, clean_rounds}
use ebpf_nids.Tools.Clean.Daemon.Rounds.{At, IsFine, Round, clean_ids-Round}

-- A map that is the list of its keys.
abbrev key_map : KeyMap
key_map = record {
  State = List ℕ;
  keys = λ m. m;
  get_next_key = next_of;
  delete_elem = λ m k. remove k m;
  next_lem = λ m k. refl;
  delete_lem = λ m k. refl;
}

cleans : clean_map key_map 9 (5 ∷ 0 ∷ 7 ∷ []) ≡ some ([], 3)
unfolding clean_map clean_loop behind next_of remove
cleans = refl

stuck_at_zero : clean_map key_map 9 (5 ∷ 7 ∷ 0 ∷ []) ≡ some (5 ∷ 7 ∷ 0 ∷ [], 0)
unfolding clean_map clean_loop behind next_of remove
stuck_at_zero = refl

distinct : AreDistinct (5 ∷ 0 ∷ 7 ∷ [])
unfolding AreDistinct Lacks
distinct = ((refl, (refl, tt)), ((refl, tt), (tt, tt)))

clean_map_lem_example : CleanSpec key_map (5 ∷ 0 ∷ 7 ∷ []) 4
clean_map_lem_example = clean_map_lem key_map (5 ∷ 0 ∷ 7 ∷ []) 3 distinct (omega arith)

-- Map 12 has three keys, and there is no other.
abbrev known_maps : ℕ → Option (List ℕ)
known_maps id = if id == 12 then some (5 ∷ 0 ∷ 7 ∷ []) else none

abbrev daemon : Daemon key_map
daemon = record { maps = known_maps; descriptors = 3 }

known_maps-IsFine : (j : ℕ) → At key_map 3 (IsFine key_map 3) known_maps j
known_maps-IsFine j m found = elim (Bool-cases (j == 12)) [
  | inl e ↦
      let stored : known_maps j ≡ some (5 ∷ 0 ∷ 7 ∷ []) = rw e refl in
      subst (IsFine key_map 3) (some-injective _ m (sym stored ∙ found)) (distinct, omega arith)
  | inr ne ↦ absurd (ground (arith, ne, found))
]

clean_ids-Round_example : (s' : Daemon key_map) × Round key_map 3 daemon (12 ∷ 13 ∷ []) s'
clean_ids-Round_example = clean_ids-Round key_map 3 daemon (12 ∷ 13 ∷ []) known_maps-IsFine

reads_ids : ids_of (codes "60" ∷ codes "12" ∷ codes "13" ∷ []) ≡ 12 ∷ 13 ∷ []
unfolding ids_of as_id atoi skip_spaces read_digits
reads_ids = refl

-- A night without a signal, in which nobody else touches the maps.
abbrev quiet : Night key_map
quiet = record { stopped = false; meanwhile = λ maps. maps }

-- The signal that comes in the first night ends the daemon behind that night's round.
cleans_once :
    clean_rounds key_map 4 daemon (12 ∷ []) (quiet ∷ record quiet { stopped = true } ∷ [])
    ≡ clean_ids key_map 4 daemon (12 ∷ [])
unfolding clean_rounds clean_ids clean_id clean_map clean_loop behind next_of remove
cleans_once = refl
