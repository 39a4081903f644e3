-- ===== src/Tools/CliTests.antt =====
-- Runs of the tools that attach a program or poll a buffer, and their theorems at concrete inputs.
use ebpf_nids.Prelude.{ℕ, ◌≡◌, refl, true, false, none, some, List, [], ◌∷◌, arith}
use ebpf_nids.Prelude.Int.{pos, negsuc}
use ebpf_nids.Prelude.Text.{codes}
use ebpf_nids.Prelude.Decimal.{decimal}
use ebpf_nids.Loader.Text.{skip_spaces, read_digits}
use ebpf_nids.Tools.Strtol.{strtol}
use ebpf_nids.Kernel.Tracking.{journal}
use ebpf_nids.Tools.Ledger.{skeleton, ring, xdp_hook, map_fd, Balanced, Keeps, Leaves}
use ebpf_nids.Tools.Polling.{Round, poll_loop, is_negative, is_eintr, polling_ends}
use ebpf_nids.Tools.Attach
use ebpf_nids.Tools.Attach.{attach_main, attach_loaded}
use ebpf_nids.Tools.Listen
use ebpf_nids.Tools.Listen.{listen_main, listen_opened, listen_at, listen_loop, ring_main}
use ebpf_nids.Tools.Listen.Releases.{signal_comes, listeners_release}
use ebpf_nids.Tools.Bootstrap.{Event, Tracer, Call, exec, exit, Task, run}
use ebpf_nids.Tools.Bootstrap.Cli
use ebpf_nids.Tools.Bootstrap.Cli.{
  Key, is_zero, duration, argp_parse, parse_arg, set_duration, is_positive, no_env, min_duration_ns,
  main, main_with, cleanup, cleanup_polled, exit_status,
}
use ebpf_nids.Tools.Bootstrap.Cli.Release.{EndsWell}
use ebpf_nids.Tools.Bootstrap.Cli.Legacy.{LegacyAnswers, legacy_main, tracers_end}
use ebpf_nids.Tools.Bootstrap.Cli.Duration.{AllShow, duration_lines}

-- Two polls, and then a signal.
abbrev rounds : List Round
rounds =
    record { stopped = false; polled = pos 1 }
    ∷ record { stopped = false; polled = pos 0 }
    ∷ record { stopped = true; polled = pos 0 }
    ∷ []

rounds_end : polling_ends rounds ≡ true
unfolding polling_ends is_negative
rounds_end = refl

interrupted : poll_loop (pos 0) (record { stopped = false; polled = negsuc 3 } ∷ []) ≡ some (pos 0)
unfolding poll_loop is_eintr
interrupted = refl

abbrev attachable : Attach.Answers
attachable = record { if_nametoindex = λ name. 2; open_and_load = true; xdp_attach = pos 0 }

attaches : (attach_main attachable (codes "eth0" ∷ [])).released ≡ xdp_hook 2 ∷ skeleton ∷ []
unfolding attach_main attach_loaded
attaches = refl

abbrev listens : Listen.Answers
listens = record {
  map_get_fd_by_id = λ id. pos 5;
  ring_buffer_new = true;
  open_and_load = true;
  attach = pos 0;
}

leaves_map_open :
    listen_main listens rounds (codes "12" ∷ [])
    ≡ some (record { status = pos 0; acquired = map_fd 5 ∷ ring ∷ []; released = ring ∷ [] })
unfolding listen_main listen_opened listen_at listen_loop is_negative
leaves_map_open = refl

signal : signal_comes rounds ≡ true
unfolding signal_comes
signal = refl

listeners_release_example :
    Leaves Balanced (ring_main listens rounds (codes "lo" ∷ []))
    × Leaves (Keeps (map_fd 5 ∷ [])) (listen_main listens rounds (codes "12" ∷ []))
listeners_release_example =
    listeners_release listens rounds (codes "lo" ∷ []) (codes "12") 5 signal refl

abbrev library : Cli.Answers
library = record { opens = true; load_result = λ ns. pos 0; attach = pos 0; ring_buffer_new = true }

no_minimum : main library rounds [] ≡ some (cleanup_polled (pos 0))
unfolding main main_with argp_parse poll_loop is_negative is_eintr exit_status is_zero
no_minimum = refl

bad_minimum : argp_parse no_env (duration (codes "0") ∷ []) ≡ none
unfolding argp_parse parse_arg set_duration is_positive strtol skip_spaces read_digits
bad_minimum = refl

-- The nanoseconds of 2^58 milliseconds wrap around to none.
wraps : min_duration_ns (record { verbose = false; min_duration_ms = pos 288230376151711744 }) ≡ 0
unfolding min_duration_ns
wraps = refl

abbrev legacy_library : LegacyAnswers
legacy_library = record {
  opens = true;
  load_result = λ ns. pos 0;
  attach = pos 0;
  perf_buffer_new = true;
}

tracers_end_example :
    Leaves EndsWell (main library rounds (duration (codes "5") ∷ []))
    × Leaves EndsWell (legacy_main legacy_library rounds (duration (codes "5") ∷ []))
tracers_end_example =
    tracers_end library legacy_library rounds (duration (codes "5") ∷ []) rounds_end

abbrev blank : Event
blank = record {
  pid = 0;
  ppid = 0;
  exit_code = 0;
  duration_ns = 0;
  comm = [];
  filename = [];
  exit_event = false;
}

abbrev shell : Task
shell = record { ppid = 1; exit_code = 256; comm = codes "sh"; filename = codes "/bin/sh" }

-- A process that lives for 3 ms.
abbrev calls : List Call
calls = exec (some blank) 7 1000 shell ∷ exit (some blank) 30064771079 3001000 shell ∷ []

abbrev tracer : Tracer (journal ℕ)
tracer = record { exec_start = []; rb = [] }

duration_lines_example :
    (env' : Cli.Env) × (argp_parse no_env (duration (decimal 2) ∷ []) ≡ some env')
    × AllShow 2 (codes "12:00:00") (run (journal ℕ) (min_duration_ns env') tracer calls).rb
duration_lines_example =
    duration_lines (journal ℕ) tracer calls no_env 2 (codes "12:00:00") refl (omega arith)
      (omega arith)
