-- ===== src/Tools/TaskIter/Listing.antt =====
-- That examples/c/task_iter.c lists the tasks that examples/c/task_iter.bpf.c visits.
use mathlib.Core.List.{map}
use ebpf_nids.Prelude.{
  ℕ, ◌≡◌, refl, ap, ◌∙◌, sym, true, some, List, [], ◌∷◌, ◌++◌, append_assoc, append-nil,
  if◌then◌else◌,
}
use ebpf_nids.Prelude.Int.{ℤ, pos}
use ebpf_nids.Loader.Text.{copy}
use ebpf_nids.Tools.Ledger.{skeleton, iter_link, iter_fd}
use ebpf_nids.Tools.TaskIter.{
  TaskInfo, TaskState, pre514, post514, Task, get_tasks, iterate, stack_len, task_comm_len,
}
use ebpf_nids.Tools.TaskIter
use ebpf_nids.Tools.TaskIter.Cli.{
  Line, stack_error, stack_found, print_task, is_empty_len, Read, again, failed, finished, info,
  read_loop, Answers, cleanup, exit_status, close_iter, read_tasks, main_with,
}
use ebpf_nids.Tools.TaskIter.Cli

-- Reads that give these tasks in their order, and then the end. Any read may have to be repeated.
pub data Delivers : List TaskInfo → List Read → Type 0 where
  at_end : (rs : List Read) → Delivers [] (finished ∷ rs)
  repeated : {ts : List TaskInfo} {rs : List Read} → Delivers ts rs → Delivers ts (again ∷ rs)
  next_task :
      {ts : List TaskInfo} {rs : List Read} (t : TaskInfo)
      → Delivers ts rs
      → Delivers (t ∷ ts) (info t ∷ rs)

-- The line of a task: with its stack, if that has a whole entry.
unfoldable pub task_line : Task → Line
task_line task =
    let len = stack_len task.stack_res in
    let comm = copy task_comm_len task.comm in
    let state = Cli.get_task_state (TaskIter.get_task_state task.state) in
    if is_empty_len len
    then stack_error task.tgid comm len state
    else stack_found task.tgid comm len state

read_loop-Delivers :
    {ts : List TaskInfo} {rs : List Read} (err : ℤ)
    → Delivers ts rs
    → read_loop err rs ≡ some (err, map print_task ts)
unfolding read_loop
read_loop-Delivers err (at_end rs) = refl
read_loop-Delivers err (repeated d) = read_loop-Delivers err d
read_loop-Delivers err (next_task t d) = rw (read_loop-Delivers err d, read_loop) refl

get_tasks-task_line :
    (task : Task) (t : TaskInfo) (seq : List TaskInfo)
    → map print_task (get_tasks (some task) (some t) seq).1
      ≡ map print_task seq ++ (task_line task ∷ [])
unfolding get_tasks print_task task_line
get_tasks-task_line task t [] = refl
get_tasks-task_line task t (x ∷ seq) = ap (◌∷◌ (print_task x)) (get_tasks-task_line task t seq)

iterate-task_line :
    (tasks : List Task) (t : TaskInfo) (seq : List TaskInfo)
    → map print_task (iterate tasks (some t) seq) ≡ map print_task seq ++ map task_line tasks
unfolding iterate get_tasks
iterate-task_line [] t seq = sym (append-nil (map print_task seq))
iterate-task_line (task ∷ tasks) t seq =
    iterate-task_line tasks _ (get_tasks (some task) (some t) seq).1
    ∙ ap (λ (ls : List Line). ls ++ map task_line tasks) (get_tasks-task_line task t seq)
    ∙ append_assoc (map print_task seq) (task_line task ∷ []) (map task_line tasks)

read_tasks-Delivers :
    (w : Answers) (err : ℤ) (fd : ℕ) {ts : List TaskInfo}
    → Delivers ts w.reads
    → read_tasks w err (pos fd)
      ≡ some (
        cleanup err (pos fd) (iter_link ∷ skeleton ∷ []) (skeleton ∷ iter_link ∷ iter_fd fd ∷ []),
        map print_task ts,
      )
unfolding read_tasks
read_tasks-Delivers w err fd d = rw (read_loop-Delivers err d, read_tasks) refl

-- Where the program loads, the iterator attaches and opens as `fd`, and the reads give what the
-- kernel writes for its tasks, however often they have to be repeated, the tool prints one line for each
-- task, in the kernel's order, gives back what it acquired, and exits with the status of what
-- `err` had before: nothing sets it on this way.
pub tasks_listed :
    (w : Answers) (tasks : List Task) (t : TaskInfo) (err pid_filter : ℤ) (fd : ℕ)
    → w.open_and_load ≡ true
    → w.attach pid_filter ≡ 0
    → w.iter_create ≡ pos fd
    → Delivers (iterate tasks (some t) []) w.reads
    → main_with w err pid_filter
      ≡ some (
        record {
          status = exit_status err;
          acquired = skeleton ∷ iter_link ∷ iter_fd fd ∷ [];
          released = iter_fd fd ∷ iter_link ∷ skeleton ∷ [];
        },
        map task_line tasks,
      )
unfolding main_with
tasks_listed w tasks t err pid_filter fd opened attached created d = rw opened (
    rw attached (
      rw created (
        read_tasks-Delivers w err fd d
        ∙ ap
            (λ (ls : List Line). some (
              cleanup err (pos fd) (iter_link ∷ skeleton ∷ [])
                  (skeleton ∷ iter_link ∷ iter_fd fd ∷ []),
              ls,
            ))
            (iterate-task_line tasks t []))))
