-- ===== src/Tools/Probes.antt =====
-- The sample programs of examples/c that attach a probe and print: minimal.bpf.c, minimal_ns.bpf.c
-- and minimal_legacy.bpf.c, ksyscall.bpf.c, kprobe.bpf.c, fentry.bpf.c and lsm.bpf.c.
-- A line is the arguments of its format string.
pub mod Mains
pub mod Own
pub mod Users
use ebpf_nids.Prelude.{
  ℕ, ◌+◌, ◌*◌, ◌/◌, ◌%◌, ◌^◌, Bool, true, false, not, Option, none, some, List, [], ◌∷◌, ◌==◌,
  if◌then◌else◌,
}
use ebpf_nids.Prelude.Int.{ℤ, pos, negsuc}
use ebpf_nids.Prelude.Text.{Bytes}

-- The thread that makes a system call: the ids of its process and of itself in the initial
-- namespace, and the process id that `bpf_get_ns_current_pid_tgid` finds in the namespace with a
-- device and an inode, 0 if it fails.
pub record Caller : Type 0 where
  pub tgid : ℕ
  pub tid : ℕ
  pub ns_pid : ℕ → ℕ → ℕ

-- What `bpf_get_current_pid_tgid` is documented to return: the process above, the thread below.
abbrev pub current_pid_tgid : Caller → ℕ
current_pid_tgid c = c.tgid * 2 ^ 32 + c.tid % 2 ^ 32

-- An id is below 2^31, so that the `int` that holds it has the same value.
abbrev pub pid_of : ℕ → ℕ
pid_of pid_tgid = pid_tgid / 2 ^ 32

-- What a program returns, and the lines that it prints.
abbrev pub Printed : Type 0
Printed = ℕ × List ℕ

-- `handle_tp` of minimal.bpf.c.
unfoldable pub minimal_handle_tp : ℕ → Caller → Printed
minimal_handle_tp my_pid c =
    let pid = pid_of (current_pid_tgid c) in if not (pid == my_pid) then (0, []) else (0, pid ∷ [])

-- `handle_tp` of minimal_ns.bpf.c.
unfoldable pub minimal_ns_handle_tp : ℕ → ℕ → ℕ → Caller → Printed
minimal_ns_handle_tp dev ino my_pid c =
    let pid = c.ns_pid dev ino in if not (pid == my_pid) then (0, []) else (0, pid ∷ [])

-- `handle_tp` of minimal_legacy.bpf.c, by the entry of `my_pid_map`.
unfoldable pub minimal_legacy_handle_tp : Option ℕ → Caller → Printed
minimal_legacy_handle_tp none c = (1, [])
minimal_legacy_handle_tp (some my_pid) c =
    let pid = pid_of (current_pid_tgid c) in if not (my_pid == pid) then (1, []) else (0, pid ∷ [])

-- The line of a signal: the caller's id and name, and the arguments of the call.
pub data SignalLine : Type 0 where
  tgkill_line : ℕ → Bytes → ℤ → ℤ → ℤ → SignalLine
  kill_line : ℕ → Bytes → ℤ → ℤ → SignalLine

abbrev is_none : ℤ → Bool
is_none (pos n) = n == 0
is_none (negsuc n) = false

-- `tgkill_entry` and `entry_probe` of ksyscall.bpf.c: what they print.
unfoldable pub tgkill_entry : ℕ → Bytes → ℤ → ℤ → ℤ → Option SignalLine
tgkill_entry pid_tgid comm tgid tid sig =
    if is_none sig then none else some (tgkill_line (pid_of pid_tgid) comm tid tgid sig)

unfoldable pub entry_probe : ℕ → Bytes → ℤ → ℤ → Option SignalLine
entry_probe pid_tgid comm pid sig =
    if is_none sig then none else some (kill_line (pid_of pid_tgid) comm pid sig)

-- The lines of kprobe.bpf.c and fentry.bpf.c: of a file's removal, and of its result.
pub data UnlinkLine : Type 0 where
  kprobe_entry : ℕ → Bytes → UnlinkLine
  kprobe_exit : ℕ → ℤ → UnlinkLine
  fentry_line : ℕ → Bytes → UnlinkLine
  fexit_line : ℕ → Bytes → ℤ → UnlinkLine

unfoldable pub kprobe_unlinkat : ℕ → Bytes → ℤ → List UnlinkLine
kprobe_unlinkat pid_tgid name ret =
    kprobe_entry (pid_of pid_tgid) name ∷ kprobe_exit (pid_of pid_tgid) ret ∷ []

unfoldable pub fentry_unlinkat : ℕ → Bytes → ℤ → List UnlinkLine
fentry_unlinkat pid_tgid name ret =
    fentry_line (pid_of pid_tgid) name ∷ fexit_line (pid_of pid_tgid) name ret ∷ []

-- `lsm_bpf` of lsm.bpf.c: what it returns, by what the program before it returned, and whether it
-- prints.
unfoldable pub lsm_bpf : ℤ → ℤ × Bool
lsm_bpf ret = if not (is_none ret) then (ret, false) else (negsuc 0, true)
