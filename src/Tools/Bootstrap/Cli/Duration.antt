-- ===== src/Tools/Bootstrap/Cli/Duration.antt =====
-- The option -d of examples/c/bootstrap.c and the samples of examples/c/bootstrap.bpf.c.
use ebpf_nids.Prelude.{
  ℕ, suc, zero, ap, ◌*◌, ◌%◌, ◌^◌, ◌≤◌, ◌≡◌, ap, refl, false, none, some, List, [], ◌∷◌, arith,
  ◌==◌,
}
use ebpf_nids.Prelude.Int.{pos}
use ebpf_nids.Prelude.Text.{Bytes}
use ebpf_nids.Prelude.Decimal.{decimal}
use ebpf_nids.Kernel.Tracking.{TrackingMap}
use ebpf_nids.Tools.Strtol.{strtol-decimal}
use ebpf_nids.Tools.Bootstrap.{Event, Tracer, Call, run}
use ebpf_nids.Tools.Bootstrap.Long.{IsLongExit, AllLong, run-AllLong}
use ebpf_nids.Tools.Bootstrap.Cli.{
  Env, duration, is_positive, set_duration, parse_arg, argp_parse, Line, exit_line, exec_line,
  handle_event, min_duration_ns,
}

-- The line of a process that lived for at least `ms` milliseconds.
unfoldable pub ShowsAtLeast : ℕ → Line → Type 0
ShowsAtLeast ms (exit_line ts comm pid ppid code (some shown)) = ms ≤ shown
ShowsAtLeast ms (exit_line ts comm pid ppid code none) = ⊥
ShowsAtLeast ms (exec_line ts comm pid ppid filename) = ⊥

unfoldable pub AllShow : ℕ → Bytes → List Event → Type 0
AllShow ms ts [] = Unit {0}
AllShow ms ts (e ∷ es) = ShowsAtLeast ms (handle_event ts e) × AllShow ms ts es

event-ShowsAtLeast :
    (ms : ℕ) (ts : Bytes) (e : Event)
    → 1 ≤ ms
    → IsLongExit (ms * 1000000) e
    → ShowsAtLeast ms (handle_event ts e)
unfolding ShowsAtLeast handle_event
event-ShowsAtLeast ms ts e h (exits, long) =
    let lived : (e.duration_ns == 0) ≡ false = ground (arith, long) in
    rw exits (rw lived (omega (arith, long)))

AllLong-AllShow :
    (ms : ℕ) (ts : Bytes) (es : List Event) → 1 ≤ ms → AllLong (ms * 1000000) es → AllShow ms ts es
unfolding AllLong AllShow
AllLong-AllShow ms ts [] h l = tt
AllLong-AllShow ms ts (e ∷ es) h l =
    (event-ShowsAtLeast ms ts e h l.0, AllLong-AllShow ms ts es h l.1)

-- The largest number of milliseconds whose nanoseconds a `__u64` holds.
abbrev pub max_ms : ℕ
max_ms = 18446744073709

argp_parse-duration :
    (env : Env) (ms : ℕ)
    → 1 ≤ ms
    → ms ≤ max_ms
    → argp_parse env (duration (decimal ms) ∷ []) ≡ some (record env { min_duration_ms = pos ms })
unfolding argp_parse parse_arg set_duration is_positive
argp_parse-duration env zero h k = absurd (omega (arith, h))
argp_parse-duration env (suc n) h k =
    let taken : parse_arg env (duration (decimal (suc n)))
        ≡ some (record env { min_duration_ms = pos (suc n) }) =
      ap (set_duration env) (strtol-decimal (suc n) (omega arith)) in
    rw (taken, argp_parse) refl

-- With the option -d and a number of milliseconds from 1 to 18446744073709, written in decimal, the
-- option is taken, and, whatever tracepoints fire from an empty ring buffer on, every line that the tracer
-- prints is of an exit and shows at least that many milliseconds.
pub duration_lines :
    (m : TrackingMap ℕ) (s : Tracer m) (cs : List Call) (env : Env) (ms : ℕ) (ts : Bytes)
    → s.rb ≡ []
    → 1 ≤ ms
    → ms ≤ max_ms
    → (env' : Env) × (argp_parse env (duration (decimal ms) ∷ []) ≡ some env')
      × AllShow ms ts (run m (min_duration_ns env') s cs).rb
unfolding min_duration_ns
duration_lines m s cs env ms ts fresh h k =
    let ns : ms * 1000000 % 2 ^ 64 ≡ ms * 1000000 = omega (arith, k) in
    let positive : (ms * 1000000 == 0) ≡ false = ground (arith, h) in
    (
      record env { min_duration_ms = pos ms },
      argp_parse-duration env ms h k,
      rw ns (
          AllLong-AllShow ms ts (run m (ms * 1000000) s cs).rb h
            (run-AllLong m (ms * 1000000) positive s cs (rw fresh (unfold AllLong in tt)))),
    )
