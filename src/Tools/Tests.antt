-- ===== src/Tools/Tests.antt =====
-- Runs of the probes, and their theorems at concrete inputs.
use ebpf_nids.Prelude.{ℕ, ◌+◌, ◌*◌, ◌^◌, ◌≡◌, refl, false, none, some, List, [], ◌∷◌, ◌++◌, arith}
use ebpf_nids.Prelude.Text.{Bytes, codes}
use ebpf_nids.Kernel.Tracking.{journal, bounded}
use ebpf_nids.Tools.Bootstrap.{
  Event, Task, Tracer, submit_event, handle_exec, report_exit, handle_exit, Call, exec, exit, run,
}
use ebpf_nids.Tools.Tracecon
use ebpf_nids.Tools.Tracecon.{Lookup, get_tid}
use ebpf_nids.Tools.Tracecon.Names.{AllNamed, AllAsked, Traced, run-Traced}
use ebpf_nids.Tools.Tracecon.Once.{HasRoom, resolve_and_connect, named_once}
use ebpf_nids.Tools.Bootstrap.Lifetime.{IsOther, AllOther, exit_sample, IsLifetime, lifetime}
use ebpf_nids.Tools.Bootstrap.Long.{AllLong}

abbrev blank : Event
blank = record {
  pid = 0;
  ppid = 0;
  exit_code = 0;
  duration_ns = 0;
  comm = [];
  filename = [];
  exit_event = false;
}

abbrev shell : Task
shell = record { ppid = 1; exit_code = 256; comm = codes "sh"; filename = codes "/bin/sh" }

abbrev tracer : Tracer (journal ℕ)
tracer = record { exec_start = []; rb = [] }

-- Another process starts, and a thread of a third one ends.
abbrev others : List Call
others = exec none 8 1500 shell ∷ exit (some blank) (9 * 2 ^ 32 + 12) 1600 shell ∷ []

others-AllOther : AllOther 7 others
unfolding AllOther IsOther
others-AllOther = (refl, (refl, tt))

lifetime_example :
    IsLifetime
      (journal ℕ)
      300
      (run (journal ℕ) 300 tracer (exec (some blank) 7 1000 shell ∷ others))
      blank
      7
      1000
      1800
      shell
lifetime_example =
    lifetime (journal ℕ) 300 tracer (some blank) blank 7 1000 1800 shell shell others (omega arith)
      refl others-AllOther

abbrev calls : List Call
calls =
    exec (some blank) 7 1000 shell
    ∷ exec (some blank) 8 1700 shell
    ∷ exit (some blank) (7 * 2 ^ 32 + 7) 1800 shell
    ∷ exit (some blank) (8 * 2 ^ 32 + 8) 1900 shell
    ∷ []

one_long_exit : (run (journal ℕ) 300 tracer calls).rb ≡ exit_sample blank 7 800 shell ∷ []
unfolding run handle_exec handle_exit report_exit submit_event
one_long_exit = refl

no_samples : AllLong 300 []
unfolding AllLong
no_samples = tt

abbrev trace_kernel : Tracecon.Kernel
trace_kernel = record {
  lookups = bounded 2 Lookup;
  hostnames = bounded 1 Lookup;
  sockets = bounded 1 ℕ;
}

abbrev trace : Tracecon.Tracer trace_kernel
trace = record { lookups = []; hostnames = []; sockets = []; events = [] }

-- The results at 64 hold the address 9, and so do the sockets at 128 and 192.
abbrev nine : ℕ → ℕ
nine p = 9

abbrev connected_once : Tracecon.Tracer trace_kernel
connected_once =
    resolve_and_connect trace_kernel 0 trace (5 * 2 ^ 32 + 6) (codes "db") nine nine 64 128

-- The first connection gives its room back.
room_again : HasRoom trace_kernel.sockets connected_once.sockets 6
unfolding Tracecon.run Tracecon.step Tracecon.getaddrinfo_enter Tracecon.getaddrinfo_exit
    Tracecon.tcp_v4_connect_enter Tracecon.tcp_v4_connect_exit Tracecon.forget_lookup
    Tracecon.forget_socket Tracecon.report get_tid
room_again v = refl

named_once_example :
    let first =
      resolve_and_connect trace_kernel 0 trace (5 * 2 ^ 32 + 6) (codes "db") nine nine 64 128 in
    let second =
      Tracecon.run trace_kernel 0 first
        (Tracecon.connect (5 * 2 ^ 32 + 6) 192 ∷ Tracecon.connected (5 * 2 ^ 32 + 6) nine 0 ∷ []) in
    (first.events ≡ record { tag = 1; ip = 0; hostname = codes "db" } ∷ [])
    × (second.events ≡ first.events ++ (record { tag = 0; ip = 9; hostname = [] } ∷ []))
unfolding get_tid
named_once_example =
    named_once trace_kernel 0 trace (5 * 2 ^ 32 + 6) (codes "db") nine nine 64 128 192 (λ v. refl)
      (λ v. refl) (λ v. refl) room_again refl refl refl

-- A name that is not empty.
abbrev IsFull : Bytes → Type 0
IsFull name = ¬ (name ≡ [])

abbrev probes : List Tracecon.Call
probes =
    Tracecon.resolve (5 * 2 ^ 32 + 6) (codes "db") 64
    ∷ Tracecon.resolve (5 * 2 ^ 32 + 7) (codes "web") 72
    ∷ Tracecon.resolved (5 * 2 ^ 32 + 6) nine 0
    ∷ Tracecon.connect (5 * 2 ^ 32 + 7) 128
    ∷ Tracecon.connected (5 * 2 ^ 32 + 7) nine 0
    ∷ []

trace-Traced : Traced trace_kernel IsFull trace
unfolding AllNamed
trace-Traced = record {
  lookups = λ k v e. absurd (ground arith);
  hostnames = λ k v e. absurd (ground arith);
  events = tt;
}

probes-AllAsked : AllAsked IsFull probes
unfolding AllAsked
probes-AllAsked = (λ e. ground arith, (λ e. ground arith, tt))

run-Traced_example : Traced trace_kernel IsFull (Tracecon.run trace_kernel 0 trace probes)
run-Traced_example = run-Traced trace_kernel IsFull 0 trace probes trace-Traced probes-AllAsked
