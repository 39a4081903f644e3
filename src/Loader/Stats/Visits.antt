-- ===== src/Loader/Stats/Visits.antt =====
-- The loop ends, and reports each key once.
use mathlib.Core.List.{foldl}
use ebpf_nids.Prelude.{
  ℕ, zero, suc, ◌≤◌, ◌<◌, ◌≡◌, refl, Option, none, some, List, [], ◌∷◌, arith, length,
}
use ebpf_nids.Kernel.{FlowStats}
use ebpf_nids.Loader.Stats.{Reporter, World, MapView, report_key, read_loop, read_and_report_stats}

-- The kernel's iteration goes through these keys and ends, after the key `k` or from the start.
abbrev pub Iterates : MapView → Option ℕ → List ℕ → Type 0
Iterates m k [] = m.next_key k ≡ none
Iterates m k (k' ∷ ks) = (m.next_key k ≡ some k') × Iterates m (some k') ks

-- The keys do not depend on the values.
pub Iterates-value :
    (m : MapView) (v : ℕ → Option FlowStats) (o : Option ℕ) (ks : List ℕ)
    → Iterates m o ks
    → Iterates (record m { value = v }) o ks
Iterates-value m v o [] h = h
Iterates-value m v o (k ∷ ks) h = (h.0, Iterates-value m v (some k) ks h.1)

module _ (w : World) (interval : ℕ) (m : MapView) where
  read_loop_lem :
      (ks : List ℕ) (fuel : ℕ) (st : Reporter) (k : ℕ)
      → Iterates m (some k) ks
      → length ks < fuel
      → read_loop fuel w interval m st k ≡ some (foldl (report_key w interval m) st (k ∷ ks))
  unfolding read_loop
  read_loop_lem ks zero st k h f = absurd (omega arith)
  read_loop_lem [] (suc fuel) st k h f = rw (h, read_loop) refl
  read_loop_lem (k' ∷ ks) (suc fuel) st k h f =
      rw (h.0, read_loop)
        (read_loop_lem ks fuel (report_key w interval m st k) k' h.1 (omega arith))

  -- Where the kernel's iteration of the map is finite and goes through the keys `ks`, the loop
  -- ends, and it has reported the entries of these keys and no others, each as often as it is
  -- visited and in that order; a key whose entry is gone is passed over.
  pub read_and_report_stats_lem :
      (ks : List ℕ) (fuel : ℕ) (st : Reporter)
      → Iterates m none ks
      → length ks ≤ fuel
      → read_and_report_stats fuel w interval m st ≡ some (foldl (report_key w interval m) st ks)
  unfolding read_and_report_stats
  read_and_report_stats_lem [] fuel st h f = rw (h, read_and_report_stats) refl
  read_and_report_stats_lem (k ∷ ks) fuel st h f =
      rw (h.0, read_and_report_stats) (read_loop_lem ks fuel st k h.1 (omega arith))
