-- ===== src/Tools/Clean.antt =====
-- examples/c/ebpf/clean_maps.c, which empties maps at intervals. A map is an interface: its keys in
-- the order of the kernel's iteration, the documented `bpf_map_get_next_key`, and
-- `bpf_map_delete_elem`.
pub mod Empties
pub mod Daemon
pub mod Single
use ebpf_nids.Prelude.{
  ℕ, zero, suc, ◌+◌, ◌≡◌, Option, none, some, List, [], ◌∷◌, ◌==◌, if◌then◌else◌,
}

pub first_of : List ℕ → Option ℕ
first_of [] = none
first_of (x ∷ xs) = some x

-- What stands behind a key: `none` if the key is not there, `some none` if it is the last one.
unfoldable pub behind : List ℕ → ℕ → Option (Option ℕ)
unfolding first_of
behind [] k = none
behind (x ∷ xs) k = if x == k then some (first_of xs) else behind xs k

-- The documented result: the key behind the given one, the first key if the given one is not in the
-- map, and an error behind the last.
unfoldable pub next_of : List ℕ → ℕ → Option ℕ
unfolding first_of
next_of keys k = elim (behind keys k) [ none ↦ first_of keys | some r ↦ r ]

unfoldable pub remove : ℕ → List ℕ → List ℕ
remove k [] = []
remove k (x ∷ xs) = if x == k then xs else x ∷ remove k xs

pub record KeyMap : Type 1 where
  pub State : Type 0
  pub keys : State → List ℕ
  pub get_next_key : State → ℕ → Option ℕ
  pub delete_elem : State → ℕ → State
  pub next_lem : (m : State) (k : ℕ) → get_next_key m k ≡ next_of (keys m) k
  pub delete_lem : (m : State) (k : ℕ) → keys (delete_elem m k) ≡ remove k (keys m)

module _ (h : KeyMap) where
  -- The loop of `clean_map`; `none` says that the fuel ran out.
  unfoldable pub clean_loop : ℕ → h.State → ℕ → ℕ → Option (h.State × ℕ)
  clean_loop zero m key count = none
  clean_loop (suc fuel) m key count = elim (h.get_next_key m key) [
    | some next_key ↦ clean_loop fuel (h.delete_elem m next_key) next_key (count + 1)
    | none ↦ some (m, count)
  ]

  -- `clean_map`: the map after it, and the number of entries it says it deleted.
  unfoldable pub clean_map : ℕ → h.State → Option (h.State × ℕ)
  unfolding clean_loop
  clean_map fuel m = clean_loop fuel m 0 0
