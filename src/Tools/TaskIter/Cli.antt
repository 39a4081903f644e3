-- ===== src/Tools/TaskIter/Cli.antt =====
-- examples/c/task_iter.c, the user side of the iterator: `get_task_state` and `main`.
use ebpf_nids.Prelude.{
  ℕ, zero, suc, ◌+◌, ◌-◌, ◌%◌, ◌^◌, Bool, true, false, not, ◌||◌, Option, none, some, List, [], ◌∷◌,
  ◌++◌, ◌==◌, if◌then◌else◌,
}
use ebpf_nids.Prelude.Int.{ℤ, pos, negsuc, signed32}
use ebpf_nids.Prelude.Text.{Bytes, codes}
use ebpf_nids.Tools.Strtol.{strtol}
use ebpf_nids.Tools.Ledger.{Resource, skeleton, iter_link, iter_fd, Run}
use ebpf_nids.Tools.TaskIter.{TaskInfo}

unfoldable pub get_task_state : ℕ → Bytes
get_task_state state =
    if state == 0x0000
    then codes "RUNNING"
    else if state == 0x0001
    then codes "INTERRUPTIBLE"
    else if state == 0x0002
    then codes "UNINTERRUPTIBLE"
    else if state == 0x0200
    then codes "WAKING"
    else if state == 0x0400
    then codes "NOLOAD"
    else if state == 0x0402
    then codes "IDLE"
    else if state == 0x0800
    then codes "NEW"
    else codes "<unknown>"

-- A line of the output: that the stack could not be had, with the error, or that it has a length.
pub data Line : Type 0 where
  stack_error : ℕ → Bytes → ℤ → Bytes → Line
  stack_found : ℕ → Bytes → ℤ → Bytes → Line

-- `kstack_len <= 0`
unfoldable pub is_empty_len : ℤ → Bool
is_empty_len (pos n) = n == 0
is_empty_len (negsuc n) = true

unfoldable pub print_task : TaskInfo → Line
unfolding get_task_state is_empty_len
print_task buf =
    if is_empty_len buf.kstack_len
    then stack_error buf.pid buf.comm buf.kstack_len (get_task_state buf.state)
    else stack_found buf.pid buf.comm buf.kstack_len (get_task_state buf.state)

-- What a `read` of the iterator gives: EAGAIN, another error, the end, or a task.
pub data Read : Type 0 where
  again : Read
  failed : ℕ → Read
  finished : Read
  info : TaskInfo → Read

-- `-errno`
unfoldable pub negated : ℕ → ℤ
negated zero = pos 0
negated (suc n) = negsuc n

-- The loop, from the value of `err` before it: the value after it and what is printed; `none` where
-- the reads do not bring it to its end.
unfoldable pub read_loop : ℤ → List Read → Option (ℤ × List Line)
unfolding negated print_task
read_loop err [] = none
read_loop err (again ∷ rs) = read_loop err rs
read_loop err (failed errno ∷ rs) = some (negated errno, [])
read_loop err (finished ∷ rs) = some (err, [])
read_loop err (info buf ∷ rs) = elim (read_loop err rs) [
  | none ↦ none
  | some r ↦ some (r.0, print_task buf ∷ r.1)
]

-- What the system and the library answer. `attach` is 0 or the error number for a filter, and `iter_create`
-- the descriptor. `junk_err` and `junk_fd` are what the variables hold before they are set.
pub record Answers : Type 0 where
  pub open_and_load : Bool
  pub attach : ℤ → ℕ
  pub iter_create : ℤ
  pub reads : List Read
  pub junk_err : ℤ
  pub junk_fd : ℤ

-- `err < 0 ? -err : 0`
unfoldable pub exit_status : ℤ → ℤ
exit_status (pos n) = pos 0
exit_status (negsuc n) = pos (n + 1)

-- `close`, which does nothing with a number that is not a descriptor.
unfoldable pub close_iter : ℤ → List Resource
close_iter (pos fd) = iter_fd fd ∷ []
close_iter (negsuc n) = []

-- What stands behind the label `cleanup`, with the resources that the skeleton's destruction takes
-- along.
unfoldable pub cleanup : ℤ → ℤ → List Resource → List Resource → Run
unfolding exit_status close_iter
cleanup err fd owned acquired = record {
  status = exit_status err;
  acquired = acquired;
  released = close_iter fd ++ owned;
}

-- `main` with the iterator's descriptor: the run, and what it prints; `none` while it reads.
unfoldable pub read_tasks : Answers → ℤ → ℤ → Option (Run × List Line)
unfolding cleanup read_loop
read_tasks w err (negsuc n) =
    some (cleanup (negsuc 0) (negsuc n) (iter_link ∷ skeleton ∷ []) (skeleton ∷ iter_link ∷ []), [])
read_tasks w err (pos fd) = elim (read_loop err w.reads) [
  | none ↦ none
  | some r ↦ some (
    cleanup r.0 (pos fd) (iter_link ∷ skeleton ∷ []) (skeleton ∷ iter_link ∷ iter_fd fd ∷ []),
    r.1,
  )
]

-- `main` with the process to look for, 0 for all, and `err` as it is then.
unfoldable pub main_with : Answers → ℤ → ℤ → Option (Run × List Line)
unfolding cleanup read_tasks negated
main_with w err pid_filter =
    if not w.open_and_load
    then some (cleanup err w.junk_fd [] [], [])
    else if not (w.attach pid_filter == 0)
    then some
        (cleanup (negated (w.attach pid_filter)) w.junk_fd (skeleton ∷ []) (skeleton ∷ []), [])
    else read_tasks w err w.iter_create

unfoldable pub is_negative : ℤ → Bool
is_negative (pos n) = false
is_negative (negsuc n) = true

-- `(pid_t)` of a `long`
unfoldable pub as_int : ℤ → ℤ
as_int (pos n) = signed32 (n % 2 ^ 32)
as_int (negsuc n) = signed32 ((2 ^ 64 - (n + 1)) % 2 ^ 32)

-- `main` with what `strtol` makes of the first argument; ERANGE is 34.
unfoldable pub main_filtered : Answers → ℤ × Bool → Option (Run × List Line)
unfolding main_with as_int is_negative
main_filtered w (n, errno) =
    let err = if errno then negsuc 33 else pos 0 in
    if errno || is_negative (as_int n)
    then some (record { status = err; acquired = []; released = [] }, [])
    else main_with w err (as_int n)

unfoldable pub main : Answers → List Bytes → Option (Run × List Line)
unfolding main_with main_filtered
main w [] = main_with w w.junk_err (pos 0)
main w (arg ∷ args) = main_filtered w (strtol arg)
