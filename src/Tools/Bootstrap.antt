-- ===== src/Tools/Bootstrap.antt =====
-- examples/c/bootstrap.bpf.c and bootstrap.h, which report processes that start and end, with their
-- lifetimes.
pub mod Lifetime
pub mod Long
pub mod Cli
pub mod Legacy
use ebpf_nids.Prelude.{
  ℕ, ◌+◌, ◌-◌, ◌/◌, ◌%◌, ◌^◌, Bool, true, false, not, ◌&&◌, Option, none, some, List, [], ◌∷◌, ◌++◌,
  ltb, ◌==◌, if◌then◌else◌,
}
use ebpf_nids.Prelude.Text.{Bytes}
use ebpf_nids.Kernel.Tracking.{TrackingMap}

-- `struct event`
pub record Event : Type 0 where
  pub pid : ℕ
  pub ppid : ℕ
  pub exit_code : ℕ
  pub duration_ns : ℕ
  pub comm : Bytes
  pub filename : Bytes
  pub exit_event : Bool

-- What the kernel says of the current task at a call.
pub record Task : Type 0 where
  pub ppid : ℕ
  pub exit_code : ℕ
  pub comm : Bytes
  pub filename : Bytes

-- `__u64` subtraction
abbrev pub sub64 : ℕ → ℕ → ℕ
sub64 a b = (2 ^ 64 + a - b) % 2 ^ 64

module _ (m : TrackingMap ℕ) where
  -- The map, and the samples in the ring buffer.
  pub record Tracer : Type 0 where
    pub exec_start : m.State
    pub rb : List Event

  -- `bpf_ringbuf_submit` of a sample.
  unfoldable pub submit_event : Tracer → Event → Tracer
  submit_event s e = record s { rb = s.rb ++ (e ∷ []) }

  -- `handle_exec` at time `ts`. `reserved` is the memory that `bpf_ringbuf_reserve` gives, if there is
  -- any: the fields that are not written keep what stood there.
  unfoldable pub handle_exec : ℕ → Option Event → Tracer → ℕ → ℕ → Task → Tracer
  unfolding submit_event
  handle_exec min_duration_ns reserved s pid ts task =
      let s' = record s { exec_start = (m.update s.exec_start pid ts).1 } in
      if not (min_duration_ns == 0) then s' else elim reserved [
        | none ↦ s'
        | some e ↦ submit_event s' (record e {
          exit_event = false;
          pid = pid;
          ppid = task.ppid;
          comm = task.comm;
          filename = task.filename;
        })
      ]

  -- `handle_exit` from the deletion on.
  unfoldable pub report_exit : ℕ → Option Event → Tracer → ℕ → ℕ → Task → Tracer
  unfolding submit_event
  report_exit min_duration_ns reserved s pid duration_ns task =
      let s' = record s { exec_start = m.delete s.exec_start pid } in
      if not (min_duration_ns == 0) && ltb duration_ns min_duration_ns then s' else elim reserved [
        | none ↦ s'
        | some e ↦ submit_event s' (record e {
          exit_event = true;
          duration_ns = duration_ns;
          pid = pid;
          ppid = task.ppid;
          exit_code = task.exit_code / 256 % 256;
          comm = task.comm;
        })
      ]

  -- `handle_exit` at time `ts`; `id` is what `bpf_get_current_pid_tgid` returns.
  unfoldable pub handle_exit : ℕ → Option Event → Tracer → ℕ → ℕ → Task → Tracer
  unfolding report_exit
  handle_exit min_duration_ns reserved s id ts task =
      let pid = id / 2 ^ 32 in
      let tid = id % 2 ^ 32 in
      if not (pid == tid) then s else elim (m.lookup s.exec_start pid) [
        | some start_ts ↦ report_exit min_duration_ns reserved s pid (sub64 ts start_ts) task
        | none ↦
            let r = report_exit min_duration_ns reserved s pid 0 task in
            if not (min_duration_ns == 0) then s else r
      ]

-- The tracepoints as they fire.
pub data Call : Type 0 where
  exec exit : Option Event → ℕ → ℕ → Task → Call

module _ (m : TrackingMap ℕ) (min_duration_ns : ℕ) where
  abbrev pub step : Tracer m → Call → Tracer m
  step s (exec reserved pid ts task) = handle_exec m min_duration_ns reserved s pid ts task
  step s (exit reserved id ts task) = handle_exit m min_duration_ns reserved s id ts task

  unfoldable pub run : Tracer m → List Call → Tracer m
  run s [] = s
  run s (c ∷ cs) = run (step s c) cs
