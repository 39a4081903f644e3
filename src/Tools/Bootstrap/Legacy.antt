-- ===== src/Tools/Bootstrap/Legacy.antt =====
-- examples/c/bootstrap_legacy.bpf.c, the tracer with a perf buffer in place of the ring buffer: a
-- sample is filled on the stack, from zeroes, and put out at the end.
use ebpf_nids.Prelude.{
  ℕ, ◌/◌, ◌%◌, ◌^◌, ◌≡◌, refl, ap, ◌∙◌, Bool, true, false, not, ◌&&◌, Option, none, some, List, [],
  ◌∷◌, ltb, ◌==◌, if◌then◌else◌,
}
use ebpf_nids.Kernel.Tracking.{TrackingMap}
use ebpf_nids.Tools.Bootstrap.{
  Event, Task, sub64, Tracer, submit_event, handle_exec, report_exit, handle_exit, Call, exec, exit,
  run,
}

-- `struct event e = {}`
abbrev pub zeroed : Event
zeroed = record {
  pid = 0;
  ppid = 0;
  exit_code = 0;
  duration_ns = 0;
  comm = [];
  filename = [];
  exit_event = false;
}

-- The tracepoints as they fire, with whether the perf buffer has room at that time.
pub data LegacyCall : Type 0 where
  legacy_exec legacy_exit : Bool → ℕ → ℕ → Task → LegacyCall

module _ (m : TrackingMap ℕ) (min_duration_ns : ℕ) where
  -- `bpf_perf_event_output`
  unfoldable pub perf_output : Bool → Tracer m → Event → Tracer m
  unfolding submit_event
  perf_output room s e = if room then submit_event m s e else s

  unfoldable pub legacy_handle_exec : Bool → Tracer m → ℕ → ℕ → Task → Tracer m
  unfolding perf_output
  legacy_handle_exec room s pid ts task =
      let s' = record s { exec_start = (m.update s.exec_start pid ts).1 } in
      if not (min_duration_ns == 0)
      then s'
      else perf_output room s' (record zeroed {
        exit_event = false;
        pid = pid;
        ppid = task.ppid;
        comm = task.comm;
        filename = task.filename;
      })

  -- `handle_exit` from the deletion on.
  unfoldable pub legacy_report_exit : Bool → Tracer m → ℕ → ℕ → Task → Tracer m
  unfolding perf_output
  legacy_report_exit room s pid duration_ns task =
      let s' = record s { exec_start = m.delete s.exec_start pid } in
      if not (min_duration_ns == 0) && ltb duration_ns min_duration_ns
      then s'
      else perf_output room s' (record zeroed {
        exit_event = true;
        duration_ns = duration_ns;
        pid = pid;
        ppid = task.ppid;
        exit_code = task.exit_code / 256 % 256;
        comm = task.comm;
      })

  unfoldable pub legacy_handle_exit : Bool → Tracer m → ℕ → ℕ → Task → Tracer m
  unfolding legacy_report_exit
  legacy_handle_exit room s id ts task =
      let pid = id / 2 ^ 32 in
      let tid = id % 2 ^ 32 in
      if not (pid == tid) then s else elim (m.lookup s.exec_start pid) [
        | some start_ts ↦ legacy_report_exit room s pid (sub64 ts start_ts) task
        | none ↦
            let r = legacy_report_exit room s pid 0 task in
            if not (min_duration_ns == 0) then s else r
      ]

  unfoldable pub legacy_run : Tracer m → List LegacyCall → Tracer m
  legacy_run s [] = s
  legacy_run s (legacy_exec room pid ts task ∷ cs) =
      legacy_run (legacy_handle_exec room s pid ts task) cs
  legacy_run s (legacy_exit room id ts task ∷ cs) =
      legacy_run (legacy_handle_exit room s id ts task) cs

-- The memory that the ring buffer would reserve: zeroes, if there is room.
abbrev pub reserved : Bool → Option Event
reserved room = if room then some zeroed else none

abbrev pub as_call : LegacyCall → Call
as_call (legacy_exec room pid ts task) = exec (reserved room) pid ts task
as_call (legacy_exit room id ts task) = exit (reserved room) id ts task

abbrev pub as_calls : List LegacyCall → List Call
as_calls [] = []
as_calls (c ∷ cs) = as_call c ∷ as_calls cs

module _ (m : TrackingMap ℕ) (min : ℕ) where
  legacy_handle_exec-same :
      (room : Bool) (s : Tracer m) (pid ts : ℕ) (task : Task)
      → legacy_handle_exec m min room s pid ts task
        ≡ handle_exec m min (reserved room) s pid ts task
  unfolding legacy_handle_exec handle_exec
  legacy_handle_exec-same true s pid ts task = refl
  legacy_handle_exec-same false s pid ts task = refl

  legacy_handle_exit-same :
      (room : Bool) (s : Tracer m) (id ts : ℕ) (task : Task)
      → legacy_handle_exit m min room s id ts task ≡ handle_exit m min (reserved room) s id ts task
  unfolding legacy_handle_exit legacy_report_exit handle_exit report_exit
  legacy_handle_exit-same true s id ts task = refl
  legacy_handle_exit-same false s id ts task = refl

  -- Whatever tracepoints fire, this tracer does what the other one does whose ring buffer has room at the
  -- same calls and reserves zeroed memory.
  pub legacy_run-same :
      (s : Tracer m) (cs : List LegacyCall) → legacy_run m min s cs ≡ run m min s (as_calls cs)
  unfolding legacy_run run
  legacy_run-same s [] = refl
  legacy_run-same s (legacy_exec room pid ts task ∷ cs) =
      ap (λ (t : Tracer m). legacy_run m min t cs) (legacy_handle_exec-same room s pid ts task)
      ∙ legacy_run-same (handle_exec m min (reserved room) s pid ts task) cs
  legacy_run-same s (legacy_exit room id ts task ∷ cs) =
      ap (λ (t : Tracer m). legacy_run m min t cs) (legacy_handle_exit-same room s id ts task)
      ∙ legacy_run-same (handle_exit m min (reserved room) s id ts task) cs
