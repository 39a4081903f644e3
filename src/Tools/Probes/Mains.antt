-- ===== src/Tools/Probes/Mains.antt =====
-- `main` of the sample programs of examples/c that attach a probe: minimal.c, minimal_ns.c,
-- minimal_legacy.c, kprobe.c, fentry.c, ksyscall.c, lsm.c and uprobe.c.
pub mod Release
use ebpf_nids.Prelude.{
  ℕ, Bool, true, false, not, Option, none, some, List, [], ◌∷◌, ◌==◌, if◌then◌else◌,
}
use ebpf_nids.Prelude.Int.{ℤ, pos}
use ebpf_nids.Tools.Ledger.{skeleton, Run}
use ebpf_nids.Tools.Polling.{is_negative}
use ebpf_nids.Tools.Tc.{is_zero, negated}
use ebpf_nids.Tools.Probes.{
  Caller, Printed, minimal_handle_tp, minimal_ns_handle_tp, minimal_legacy_handle_tp,
}

-- What the library and the system answer. `opens` is of `open` or of `open_and_load`; `stat` has the
-- device and the inode of the namespace, if it succeeds; the links are the error numbers of the
-- two attachments of uprobe.c, 0 if they succeed.
pub record Answers : Type 0 where
  pub opens : Bool
  pub getpid : ℕ
  pub stat : Option (ℕ × ℕ)
  pub load : ℤ
  pub update_elem : ℤ
  pub uprobe_errno : ℕ
  pub uretprobe_errno : ℕ
  pub attach : ℤ
  pub signal_ok : Bool

-- A run that has ended, or one that goes on for ever with a program attached.
pub data Outcome : Type 0 where
  ended : Run → Outcome
  tracing : (Caller → Printed) → Outcome

abbrev pub failed : ℤ → Run
failed status = record { status = status; acquired = []; released = [] }

-- The way to the label `cleanup`. The skeleton's destruction takes its links along.
unfoldable pub cleanup : ℤ → Run
unfolding negated
cleanup err = record { status = negated err; acquired = skeleton ∷ []; released = skeleton ∷ [] }

-- `main` of minimal.c.
unfoldable pub minimal_main : Answers → Outcome
unfolding cleanup is_zero
minimal_main w =
    if not w.opens
    then ended (failed (pos 1))
    else if not (is_zero w.load)
    then ended (cleanup w.load)
    else if not (is_zero w.attach)
    then ended (cleanup w.attach)
    else tracing (minimal_handle_tp w.getpid)

-- `main` of minimal_ns.c behind `stat`.
unfoldable pub minimal_ns_found : Answers → ℕ × ℕ → Outcome
unfolding cleanup is_zero
minimal_ns_found w (dev, ino) =
    if not (is_zero w.load)
    then ended (cleanup w.load)
    else if not (is_zero w.attach)
    then ended (cleanup w.attach)
    else tracing (minimal_ns_handle_tp dev ino w.getpid)

-- `main` of minimal_ns.c. Where `stat` fails the skeleton is not destroyed.
unfoldable pub minimal_ns_main : Answers → Outcome
unfolding minimal_ns_found
minimal_ns_main w = if not w.opens then ended (failed (pos 1)) else elim w.stat [
  | none ↦ ended (record { status = pos 1; acquired = skeleton ∷ []; released = [] })
  | some sb ↦ minimal_ns_found w sb
]

-- `main` of minimal_legacy.c.
unfoldable pub minimal_legacy_main : Answers → Outcome
unfolding cleanup is_zero is_negative
minimal_legacy_main w =
    if not w.opens
    then ended (failed (pos 1))
    else if is_negative w.update_elem
    then ended (cleanup w.update_elem)
    else if not (is_zero w.attach)
    then ended (cleanup w.attach)
    else tracing (minimal_legacy_handle_tp (some w.getpid))

-- The loop `while (!stop)`, by the value of `stop` at each of its tests: whether it has ended.
unfoldable pub stop_loop : List Bool → Bool
stop_loop [] = false
stop_loop (stop ∷ stops) = let rest = stop_loop stops in if stop then true else rest

-- `main` of kprobe.c; `none` while it waits. Where the handler cannot be set, `err` is still 0.
unfoldable pub kprobe_main : Answers → List Bool → Option Run
unfolding cleanup is_zero stop_loop
kprobe_main w stops =
    if not w.opens
    then some (failed (pos 1))
    else if not (is_zero w.attach)
    then some (cleanup w.attach)
    else if not w.signal_ok
    then some (cleanup w.attach)
    else if stop_loop stops
    then some (cleanup w.attach)
    else none

-- `main` of fentry.c, which has the same statements.
unfoldable pub fentry_main : Answers → List Bool → Option Run
unfolding kprobe_main
fentry_main w stops = kprobe_main w stops

-- `main` of ksyscall.c, which has the same statements.
unfoldable pub ksyscall_main : Answers → List Bool → Option Run
unfolding kprobe_main
ksyscall_main w stops = kprobe_main w stops

-- `main` of lsm.c, which ends only by an error. Where the program does not open, `err` is an
-- uninitialised variable, and the null pointer's destruction does nothing.
unfoldable pub lsm_main : Answers → ℤ → Option Run
unfolding cleanup negated is_zero
lsm_main w uninitialised =
    if not w.opens
    then some (failed (negated uninitialised))
    else if not (is_zero w.attach)
    then some (cleanup w.attach)
    else none

-- `main` of uprobe.c, which ends only by an error.
unfoldable pub uprobe_main : Answers → Option Run
unfolding cleanup is_zero
uprobe_main w =
    if not w.opens
    then some (failed (pos 1))
    else if not (w.uprobe_errno == 0)
    then some (cleanup (negated (pos w.uprobe_errno)))
    else if not (w.uretprobe_errno == 0)
    then some (cleanup (negated (pos w.uretprobe_errno)))
    else if not (is_zero w.attach)
    then some (cleanup w.attach)
    else none
