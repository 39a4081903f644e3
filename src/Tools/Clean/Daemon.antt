-- ===== src/Tools/Clean/Daemon.antt =====
-- `main` of examples/c/ebpf/clean_maps.c: the rounds over the maps of the command line.
pub mod Rounds
use ebpf_nids.Prelude.{
  ℕ, suc, ◌+◌, ◌-◌, ◌%◌, ◌^◌, Bool, true, false, Option, none, some, List, [], ◌∷◌, ◌==◌,
  if◌then◌else◌, ◌>>=◌,
}
use ebpf_nids.Prelude.Int.{ℤ, pos, negsuc}
use ebpf_nids.Prelude.Text.{Bytes}
use ebpf_nids.Loader.Text.{atoi}
use ebpf_nids.Tools.Clean.{KeyMap, clean_map}

-- An `int` as the `__u32` that `bpf_map_get_fd_by_id` takes.
unfoldable pub as_id : ℤ → ℕ
as_id (pos n) = n % 2 ^ 32
as_id (negsuc n) = (2 ^ 32 - (n + 1)) % 2 ^ 32

-- `interval`: the first argument, or an hour.
unfoldable pub interval : List Bytes → ℤ
interval [] = pos 3600
interval (arg ∷ args) = atoi arg

-- The arguments from the second on.
unfoldable pub ids_of : List Bytes → List ℕ
unfolding as_id
ids_of [] = []
ids_of (first ∷ args) = ids args
  where
    ids : List Bytes → List ℕ
    ids [] = []
    ids (arg ∷ rest) = as_id (atoi arg) ∷ ids rest

module _ (h : KeyMap) where
  -- The maps that can be opened, by their ids, and the descriptors that the process has open.
  pub record Daemon : Type 0 where
    pub maps : ℕ → Option h.State
    pub descriptors : ℕ

  abbrev pub put : (ℕ → Option h.State) → ℕ → h.State → ℕ → Option h.State
  put maps id m j = if id == j then some m else maps j

  -- One id: its map is opened, cleaned and closed, if it can be opened. `none` says that the fuel
  -- ran out.
  unfoldable pub clean_id : ℕ → Daemon → ℕ → Option Daemon
  clean_id fuel s id = elim (s.maps id) [
    | none ↦ some s
    | some m ↦ (do
      r ← clean_map h fuel m
      some (record { maps = put s.maps id r.0; descriptors = s.descriptors + 1 - 1 }))
  ]

  unfoldable pub clean_ids : ℕ → Daemon → List ℕ → Option Daemon
  clean_ids fuel s [] = some s
  clean_ids fuel s (id ∷ ids) = do s' ← clean_id fuel s id; clean_ids fuel s' ids

  -- A round: whether a signal has come before its test, and what others do to the maps while the
  -- daemon sleeps.
  pub record Night : Type 0 where
    pub stopped : Bool
    pub meanwhile : (ℕ → Option h.State) → ℕ → Option h.State

  -- `while (running)`, for as many rounds as are given.
  unfoldable pub clean_rounds : ℕ → Daemon → List ℕ → List Night → Option Daemon
  clean_rounds fuel s ids [] = some s
  clean_rounds fuel s ids (n ∷ ns) =
      let cleaned = clean_ids fuel (record s { maps = n.meanwhile s.maps }) ids in
      if n.stopped then some s else (do s' ← cleaned; clean_rounds fuel s' ids ns)
