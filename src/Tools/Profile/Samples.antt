-- ===== src/Tools/Profile/Samples.antt =====
-- examples/c/profile.bpf.c, which takes a sample of the stacks at each perf event.
use ebpf_nids.Prelude.{
  ℕ, ◌/◌, ◌^◌, ◌≤◌, Bool, not, Option, none, some, List, [], length, if◌then◌else◌,
}
use ebpf_nids.Prelude.Int.{ℤ}
use ebpf_nids.Prelude.Text.{Bytes}
use ebpf_nids.Tools.Stacks.{Sample, words}

-- What `bpf_get_stack` returns, the size in bytes or an error, and the addresses that it writes.
pub record GotStack : Type 0 where
  pub size : ℤ
  pub addresses : List ℕ

-- What the kernel answers at a perf event. `comm` is `none` where the name cannot be read.
pub record PerfEvent : Type 0 where
  pub pid_tgid : ℕ
  pub cpu_id : ℕ
  pub reserved : Bool
  pub comm : Option Bytes
  pub kstack : GotStack
  pub ustack : GotStack

-- `profile`: what it returns, and the sample that it submits.
unfoldable pub profile : PerfEvent → ℕ × Option Sample
profile w = if not w.reserved then (1, none) else (
  0,
  some (record {
    pid = w.pid_tgid / 2 ^ 32;
    cpu_id = w.cpu_id;
    comm = elim w.comm [ none ↦ [] | some name ↦ name ];
    kstack_sz = w.kstack.size;
    ustack_sz = w.ustack.size;
    kstack = w.kstack.addresses;
    ustack = w.ustack.addresses;
  }),
)

-- The documented result: as many addresses as the size says.
pub record IsStack (s : GotStack) : Type 0 where
  pub filled : words s.size ≤ length s.addresses
