-- ===== src/Tools/Bootstrap/Cli/Legacy.antt =====
-- `main` of examples/c/bootstrap_legacy.c. Its options and lines are those of bootstrap.c; it polls a
-- perf buffer.
use mathlib.Core.Option
use ebpf_nids.Prelude.{
  ℕ, ◌≡◌, refl, Bool, true, not, Option, none, some, List, [], ◌∷◌, arith, if◌then◌else◌, if_both,
  Option-cases, inl, inr,
}
use ebpf_nids.Prelude.Int.{ℤ, pos, negsuc}
use ebpf_nids.Tools.Ledger.{skeleton, perf, Run, count, Leaves}
use ebpf_nids.Tools.Polling.{Round, poll_loop, polling_ends, poll_loop-Leaves}
use ebpf_nids.Tools.Bootstrap.Cli.{
  Env, Key, argp_parse, no_env, min_duration_ns, is_zero, exit_status, cleanup, Answers, main,
}
use ebpf_nids.Tools.Bootstrap.Cli.Release.{
  EndsWell, exit_status-pos, cleanup-EndsWell, main-EndsWell,
}

-- What the library answers.
pub record LegacyAnswers : Type 0 where
  pub opens : Bool
  pub load_result : ℕ → ℤ
  pub attach : ℤ
  pub perf_buffer_new : Bool

-- The way to the label `cleanup` with a perf buffer.
unfoldable pub legacy_cleanup : ℤ → Run
unfolding exit_status
legacy_cleanup err = record {
  status = exit_status err;
  acquired = skeleton ∷ perf ∷ [];
  released = perf ∷ skeleton ∷ [];
}

-- `main` behind its options; `none` while it polls.
unfoldable pub legacy_main_with : LegacyAnswers → List Round → Env → Option Run
unfolding cleanup legacy_cleanup
legacy_main_with w rounds env =
    let loaded = w.load_result (min_duration_ns env) in
    if not w.opens
    then some (record { status = pos 1; acquired = []; released = [] })
    else if not (is_zero loaded)
    then some (cleanup loaded)
    else if not (is_zero w.attach)
    then some (cleanup w.attach)
    else if not w.perf_buffer_new
    then some (cleanup (negsuc 0))
    else Option.map legacy_cleanup (poll_loop w.attach rounds)

-- `main`. `argp_usage` ends it with status 64.
unfoldable pub legacy_main : LegacyAnswers → List Round → List Key → Option Run
unfolding legacy_main_with
legacy_main w rounds keys = elim (argp_parse no_env keys) [
  | none ↦ some (record { status = pos 64; acquired = []; released = [] })
  | some env ↦ legacy_main_with w rounds env
]

legacy_cleanup-EndsWell : (err : ℤ) → EndsWell (legacy_cleanup err)
unfolding EndsWell legacy_cleanup count
legacy_cleanup-EndsWell err = ((λ P. omega arith), exit_status-pos err)

legacy_main_with-EndsWell :
    (w : LegacyAnswers) (rounds : List Round) (env : Env)
    → polling_ends rounds ≡ true
    → Leaves EndsWell (legacy_main_with w rounds env)
unfolding legacy_main_with Leaves EndsWell
legacy_main_with-EndsWell w rounds env e =
    let loaded = w.load_result (min_duration_ns env) in
    let Done = Leaves EndsWell in
    if_both Done (not w.opens) ((λ P. refl), (1, refl))
      (if_both Done (not (is_zero loaded)) (cleanup-EndsWell loaded) (
        if_both Done (not (is_zero w.attach)) (cleanup-EndsWell w.attach) (
          if_both Done (not w.perf_buffer_new) (cleanup-EndsWell (negsuc 0))
            (poll_loop-Leaves EndsWell legacy_cleanup legacy_cleanup-EndsWell w.attach rounds e))))

legacy_main-EndsWell :
    (w : LegacyAnswers) (rounds : List Round) (keys : List Key)
    → polling_ends rounds ≡ true
    → Leaves EndsWell (legacy_main w rounds keys)
unfolding legacy_main
legacy_main-EndsWell w rounds keys e = elim (Option-cases (argp_parse no_env keys)) [
  | inl usage ↦ rw (usage, legacy_main) (unfold Leaves EndsWell in ((λ P. refl), (64, refl)))
  | inr (env, parsed) ↦ rw (parsed, legacy_main) (legacy_main_with-EndsWell w rounds env e)
]

-- Both tracers end once a signal comes or a poll fails, whatever their options are and the library
-- answers, have given back all that they acquired, and exit with a status that is not negative.
pub tracers_end :
    (w : Answers) (w' : LegacyAnswers) (rounds : List Round) (keys : List Key)
    → polling_ends rounds ≡ true
    → Leaves EndsWell (main w rounds keys) × Leaves EndsWell (legacy_main w' rounds keys)
tracers_end w w' rounds keys e =
    (main-EndsWell w rounds keys e, legacy_main-EndsWell w' rounds keys e)
