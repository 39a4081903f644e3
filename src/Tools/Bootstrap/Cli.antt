-- ===== src/Tools/Bootstrap/Cli.antt =====
-- examples/c/bootstrap.c, the user side of the tracer: its options, what it prints of a sample, and
-- `main`.
pub mod Duration
pub mod Release
pub mod Legacy
use mathlib.Core.Option
use ebpf_nids.Prelude.{
  ℕ, zero, suc, ◌+◌, ◌-◌, ◌*◌, ◌/◌, ◌%◌, ◌^◌, Bool, true, false, not, ◌||◌, Option, none, some,
  List, [], ◌∷◌, ◌==◌, if◌then◌else◌,
}
use ebpf_nids.Prelude.Int.{ℤ, pos, negsuc}
use ebpf_nids.Prelude.Text.{Bytes}
use ebpf_nids.Tools.Strtol.{strtol}
use ebpf_nids.Tools.Ledger.{skeleton, ring, Run}
use ebpf_nids.Tools.Polling.{Round, poll_loop}
use ebpf_nids.Tools.Bootstrap.{Event}

-- `struct env`
pub record Env : Type 0 where
  pub verbose : Bool
  pub min_duration_ms : ℤ

-- What `argp_parse` calls `parse_arg` with: the two options, an argument, and the keys by which it
-- tells where it is, which `parse_arg` does not know and `argp_parse` passes over.
pub data Key : Type 0 where
  verbose : Key
  duration : Bytes → Key
  argument : Bytes → Key
  other : Key

unfoldable pub is_positive : ℤ → Bool
is_positive (pos zero) = false
is_positive (pos (suc n)) = true
is_positive (negsuc n) = false

-- `case 'd'`, by what `strtol` makes of the argument.
unfoldable pub set_duration : Env → ℤ × Bool → Option Env
unfolding is_positive
set_duration env (ms, errno) =
    if errno || not (is_positive ms) then none else some (record env { min_duration_ms = ms })

-- `parse_arg`; `none` where `argp_usage` ends the program.
unfoldable pub parse_arg : Env → Key → Option Env
unfolding set_duration
parse_arg env Key.verbose = some (record env { verbose = true })
parse_arg env (duration arg) = set_duration env (strtol arg)
parse_arg env (argument arg) = none
parse_arg env other = some env

unfoldable pub argp_parse : Env → List Key → Option Env
unfolding parse_arg
argp_parse env [] = some env
argp_parse env (k ∷ ks) = elim (parse_arg env k) [ none ↦ none | some e ↦ argp_parse e ks ]

abbrev pub no_env : Env
no_env = record { verbose = false; min_duration_ms = pos 0 }

-- A line of the output, with the time of day in front.
pub data Line : Type 0 where
  exit_line : Bytes → Bytes → ℕ → ℕ → ℕ → Option ℕ → Line
  exec_line : Bytes → Bytes → ℕ → ℕ → Bytes → Line

-- `handle_event` at the time of day `ts`.
unfoldable pub handle_event : Bytes → Event → Line
handle_event ts e =
    if e.exit_event
    then exit_line ts e.comm e.pid e.ppid e.exit_code
        (if e.duration_ns == 0 then none else some (e.duration_ns / 1000000))
    else exec_line ts e.comm e.pid e.ppid e.filename

-- `min_duration_ms * 1000000ULL`
unfoldable pub min_duration_ns : Env → ℕ
min_duration_ns env = elim env.min_duration_ms [
  | pos n ↦ n * 1000000 % 2 ^ 64
  | negsuc n ↦ (2 ^ 64 - (n + 1)) * 1000000 % 2 ^ 64
]

-- What the library answers. `load_result` is called with the minimum duration that stands in the read-only
-- data by then.
pub record Answers : Type 0 where
  pub opens : Bool
  pub load_result : ℕ → ℤ
  pub attach : ℤ
  pub ring_buffer_new : Bool

unfoldable pub is_zero : ℤ → Bool
is_zero (pos n) = n == 0
is_zero (negsuc n) = false

-- `err < 0 ? -err : 0`
unfoldable pub exit_status : ℤ → ℤ
exit_status (pos n) = pos 0
exit_status (negsuc n) = pos (n + 1)

-- The way to the label `cleanup`, without and with a ring buffer.
unfoldable pub cleanup : ℤ → Run
unfolding exit_status
cleanup err = record {
  status = exit_status err;
  acquired = skeleton ∷ [];
  released = skeleton ∷ [];
}

unfoldable pub cleanup_polled : ℤ → Run
unfolding exit_status
cleanup_polled err = record {
  status = exit_status err;
  acquired = skeleton ∷ ring ∷ [];
  released = ring ∷ skeleton ∷ [];
}

-- `main` behind its options; `none` while it polls.
unfoldable pub main_with : Answers → List Round → Env → Option Run
unfolding cleanup cleanup_polled
main_with w rounds env =
    let loaded = w.load_result (min_duration_ns env) in
    if not w.opens
    then some (record { status = pos 1; acquired = []; released = [] })
    else if not (is_zero loaded)
    then some (cleanup loaded)
    else if not (is_zero w.attach)
    then some (cleanup w.attach)
    else if not w.ring_buffer_new
    then some (cleanup (negsuc 0))
    else Option.map cleanup_polled (poll_loop w.attach rounds)

-- `main`. `argp_usage` ends it with status 64.
unfoldable pub main : Answers → List Round → List Key → Option Run
unfolding main_with
main w rounds keys = elim (argp_parse no_env keys) [
  | none ↦ some (record { status = pos 64; acquired = []; released = [] })
  | some env ↦ main_with w rounds env
]
