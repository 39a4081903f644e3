-- ===== src/Tools/Bootstrap/Cli/Release.antt =====
-- How `main` of examples/c/bootstrap.c ends.

use ebpf_nids.Prelude.{◌≡◌, refl, true, not, List, arith, if_both, Option-cases, inl, inr, ℕ, ◌+◌}
use ebpf_nids.Prelude.Int.{ℤ, pos, negsuc}
use ebpf_nids.Tools.Ledger.{Run, count, Balanced, Leaves}
use ebpf_nids.Tools.Polling.{Round, polling_ends, poll_loop-Leaves}
use ebpf_nids.Tools.Bootstrap.Cli.{
  Env, Key, argp_parse, no_env, min_duration_ns, Answers, is_zero, exit_status, cleanup,
  cleanup_polled, main_with, main,
}

-- What is acquired is given back, and the exit status is not negative.
unfoldable pub EndsWell : Run → Type 0
EndsWell r = Balanced r × ((n : ℕ) × (r.status ≡ pos n))

pub exit_status-pos : (err : ℤ) → (n : ℕ) × (exit_status err ≡ pos n)
unfolding exit_status
exit_status-pos (pos n) = (0, refl)
exit_status-pos (negsuc n) = (n + 1, refl)

pub cleanup-EndsWell : (err : ℤ) → EndsWell (cleanup err)
unfolding EndsWell cleanup
cleanup-EndsWell err = ((λ P. refl), exit_status-pos err)

cleanup_polled-EndsWell : (err : ℤ) → EndsWell (cleanup_polled err)
unfolding EndsWell cleanup_polled count
cleanup_polled-EndsWell err = ((λ P. omega arith), exit_status-pos err)

main_with-EndsWell :
    (w : Answers) (rounds : List Round) (env : Env)
    → polling_ends rounds ≡ true
    → Leaves EndsWell (main_with w rounds env)
unfolding main_with Leaves EndsWell
main_with-EndsWell w rounds env e =
    let loaded = w.load_result (min_duration_ns env) in
    let Done = Leaves EndsWell in
    if_both Done (not w.opens) ((λ P. refl), (1, refl))
      (if_both Done (not (is_zero loaded)) (cleanup-EndsWell loaded) (
        if_both Done (not (is_zero w.attach)) (cleanup-EndsWell w.attach) (
          if_both Done (not w.ring_buffer_new) (cleanup-EndsWell (negsuc 0))
            (poll_loop-Leaves EndsWell cleanup_polled cleanup_polled-EndsWell w.attach rounds e))))

-- The tracer ends once a signal comes or a poll fails, whatever its options are and the library
-- answers, has given back all that it acquired, and exits with a status that is not negative.
pub main-EndsWell :
    (w : Answers) (rounds : List Round) (keys : List Key)
    → polling_ends rounds ≡ true
    → Leaves EndsWell (main w rounds keys)
unfolding main
main-EndsWell w rounds keys e = elim (Option-cases (argp_parse no_env keys)) [
  | inl usage ↦ rw (usage, main) (unfold Leaves EndsWell in ((λ P. refl), (64, refl)))
  | inr (env, parsed) ↦ rw (parsed, main) (main_with-EndsWell w rounds env e)
]
