-- ===== src/Tools/TaskIter.antt =====
-- examples/c/task_iter.bpf.c, task_iter.h and task_iter.c, which list the tasks of the system with
-- their states: the iterator here, its user side in the children.
pub mod Cli
pub mod Listing
use ebpf_nids.Prelude.{ℕ, ◌/◌, ◌%◌, ◌^◌, ◌*◌, Option, none, some, List, [], ◌∷◌, ◌++◌}
use ebpf_nids.Prelude.Int.{ℤ, pos, negsuc}
use ebpf_nids.Prelude.Text.{Bytes}
use ebpf_nids.Loader.Text.{copy}

-- `struct task_info`
pub record TaskInfo : Type 0 where
  pub pid : ℕ
  pub tid : ℕ
  pub state : ℕ
  pub comm : Bytes
  pub kstack_len : ℤ
  pub kstack : List ℕ

-- The state of a task, in the field that the kernel has: a `long` as its bits, or an `unsigned int`.
pub data TaskState : Type 0 where
  pre514 : ℕ → TaskState
  post514 : ℕ → TaskState

-- What the kernel says of a task: its fields, and of `bpf_get_task_stack` what it returns and what the
-- buffer holds after it.
pub record Task : Type 0 where
  pub tgid : ℕ
  pub pid : ℕ
  pub state : TaskState
  pub comm : Bytes
  pub stack_res : ℤ
  pub stack : List ℕ

unfoldable pub get_task_state : TaskState → ℕ
get_task_state (pre514 state) = state % 2 ^ 32
get_task_state (post514 state) = state

-- `res <= 0 ? res : res / sizeof(t->kstack[0])`
unfoldable pub stack_len : ℤ → ℤ
stack_len (pos n) = pos (n / 8)
stack_len (negsuc n) = negsuc n

-- `TASK_COMM_LEN`
abbrev pub task_comm_len : ℕ
task_comm_len = 16

-- `get_tasks` for a task or, at the end, for none, with what the lookup of `task_info_buf` finds:
-- the buffer and what has been written for the reader.
unfoldable pub get_tasks :
    Option Task → Option TaskInfo → List TaskInfo → Option TaskInfo × List TaskInfo
unfolding get_task_state stack_len
get_tasks none t seq = (t, seq)
get_tasks (some task) none seq = (none, seq)
get_tasks (some task) (some t) seq =
    let t' : TaskInfo = record {
      pid = task.tgid;
      tid = task.pid;
      state = get_task_state task.state;
      comm = copy task_comm_len task.comm;
      kstack_len = stack_len task.stack_res;
      kstack = task.stack;
    } in
    (some t', seq ++ (t' ∷ []))

-- The iteration: once for each task, and once for none.
unfoldable pub iterate : List Task → Option TaskInfo → List TaskInfo → List TaskInfo
unfolding get_tasks
iterate [] t seq = (get_tasks none t seq).1
iterate (task ∷ tasks) t seq = let r = get_tasks (some task) t seq in iterate tasks r.0 r.1
