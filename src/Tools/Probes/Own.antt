-- ===== src/Tools/Probes/Own.antt =====
-- Which system calls the three minimal programs of examples/c print.
use ebpf_nids.Prelude.{
  ℕ, suc, ◌+◌, ◌≡◌, ◌⊎◌, refl, ap, ◌∙◌, Bool, not, Option, none, some, List, [], ◌∷◌, ◌++◌, arith,
  ◌==◌, if◌then◌else◌, if_both, replicate, Bool-cases, Option-cases, inl, inr,
}
use ebpf_nids.Tools.Ledger.{Run, skeleton, Balanced, Keeps}
use ebpf_nids.Tools.Polling.{is_negative}
use ebpf_nids.Tools.Tc.{is_zero}
use ebpf_nids.Tools.Probes.{
  Caller, Printed, pid_of, current_pid_tgid, minimal_handle_tp, minimal_ns_handle_tp,
  minimal_legacy_handle_tp,
}
use ebpf_nids.Tools.Probes.Mains.{
  Answers, Outcome, ended, tracing, minimal_main, minimal_ns_found, minimal_ns_main,
  minimal_legacy_main,
}
use ebpf_nids.Tools.Probes.Mains.Release.{cleanup-Balanced}

-- The lines that a program prints for some system calls, in their order.
unfoldable pub traced : (Caller → Printed) → List Caller → List ℕ
traced program [] = []
traced program (c ∷ cs) = (program c).1 ++ traced program cs

-- How many of the system calls are those of processes with a number, as a view of the callers has it.
unfoldable pub own_calls : (Caller → ℕ) → ℕ → List Caller → ℕ
own_calls view pid [] = 0
own_calls view pid (c ∷ cs) = (if view c == pid then 1 else 0) + own_calls view pid cs

-- The program prints the number once for each call of a process that has it, and nothing else.
abbrev pub PrintsOwn : (Caller → ℕ) → ℕ → (Caller → Printed) → Type 0
PrintsOwn view pid program =
    (cs : List Caller) → traced program cs ≡ replicate (own_calls view pid cs) pid

-- A filter on the view prints own calls.
PrintsOwn-filter :
    (view : Caller → ℕ) (pid : ℕ) (program : Caller → Printed)
    → ((c : Caller) → (program c).1 ≡ (if view c == pid then pid ∷ [] else []))
    → PrintsOwn view pid program
unfolding traced own_calls
PrintsOwn-filter view pid program h [] = refl
PrintsOwn-filter view pid program h (c ∷ cs) = elim (Bool-cases (view c == pid)) [
  | inl own ↦
      let line : (program c).1 ≡ pid ∷ [] =
        h c ∙ ap (λ (b : Bool). if b then pid ∷ [] else []) own in
      let more : 1 + own_calls view pid cs ≡ suc (own_calls view pid cs) = omega arith in
      rw line (rw own (rw more (ap (◌∷◌ pid) (PrintsOwn-filter view pid program h cs))))
  | inr other ↦
      let line : (program c).1 ≡ [] = h c ∙ ap (λ (b : Bool). if b then pid ∷ [] else []) other in
      let same : 0 + own_calls view pid cs ≡ own_calls view pid cs = omega arith in
      rw line (rw other (rw same (PrintsOwn-filter view pid program h cs)))
]

abbrev pub by_pid : Caller → ℕ
by_pid c = c.tgid

pid_of-current_pid_tgid : (c : Caller) → pid_of (current_pid_tgid c) ≡ c.tgid
pid_of-current_pid_tgid c = omega arith

minimal_handle_tp-PrintsOwn : (pid : ℕ) → PrintsOwn by_pid pid (minimal_handle_tp pid)
unfolding minimal_handle_tp
minimal_handle_tp-PrintsOwn pid =
    PrintsOwn-filter by_pid pid _ λ c. rw (pid_of-current_pid_tgid c) (ground arith)

minimal_ns_handle_tp-PrintsOwn :
    (dev ino pid : ℕ)
    → PrintsOwn (λ (c : Caller). c.ns_pid dev ino) pid (minimal_ns_handle_tp dev ino pid)
unfolding minimal_ns_handle_tp
minimal_ns_handle_tp-PrintsOwn dev ino pid = PrintsOwn-filter _ pid _ λ c. ground arith

minimal_legacy_handle_tp-PrintsOwn :
    (pid : ℕ) → PrintsOwn by_pid pid (minimal_legacy_handle_tp (some pid))
unfolding minimal_legacy_handle_tp
minimal_legacy_handle_tp-PrintsOwn pid =
    PrintsOwn-filter by_pid pid _ λ c. rw (pid_of-current_pid_tgid c) (ground arith)

-- A run that has ended has a property, and one that goes on prints its own calls.
abbrev pub Watches : (Run → Type 0) → (Caller → ℕ) → ℕ → Outcome → Type 0
Watches P view pid (ended r) = P r
Watches P view pid (tracing program) = PrintsOwn view pid program

-- All is given back, but for the skeleton where `stat` fails.
abbrev pub Leaves : Option (ℕ × ℕ) → Run → Type 0
Leaves stat r = Balanced r ⊎ ((stat ≡ none) × Keeps (skeleton ∷ []) r)

-- The view of the namespace that `stat` finds.
abbrev pub in_namespace : Option (ℕ × ℕ) → Caller → ℕ
in_namespace none c = 0
in_namespace (some (dev, ino)) c = c.ns_pid dev ino

minimal_main-Watches : (w : Answers) → Watches Balanced by_pid w.getpid (minimal_main w)
unfolding minimal_main
minimal_main-Watches w =
    let P = Watches Balanced by_pid w.getpid in
    if_both P (not w.opens) (λ Q. refl)
      (if_both P (not (is_zero w.load)) (cleanup-Balanced w.load) (
        if_both P (not (is_zero w.attach)) (cleanup-Balanced w.attach)
          (minimal_handle_tp-PrintsOwn w.getpid)))

minimal_legacy_main-Watches :
    (w : Answers) → Watches Balanced by_pid w.getpid (minimal_legacy_main w)
unfolding minimal_legacy_main
minimal_legacy_main-Watches w =
    let P = Watches Balanced by_pid w.getpid in
    if_both P (not w.opens) (λ Q. refl)
      (if_both P (is_negative w.update_elem) (cleanup-Balanced w.update_elem) (
        if_both P (not (is_zero w.attach)) (cleanup-Balanced w.attach)
          (minimal_legacy_handle_tp-PrintsOwn w.getpid)))

minimal_ns_found-Watches :
    (w : Answers) (sb : ℕ × ℕ)
    → Watches (Leaves (some sb)) (in_namespace (some sb)) w.getpid (minimal_ns_found w sb)
unfolding minimal_ns_found
minimal_ns_found-Watches w (dev, ino) =
    let P = Watches (Leaves (some (dev, ino))) (in_namespace (some (dev, ino))) w.getpid in
    if_both P (not (is_zero w.load)) (inl (cleanup-Balanced w.load)) (
      if_both P (not (is_zero w.attach)) (inl (cleanup-Balanced w.attach))
        (minimal_ns_handle_tp-PrintsOwn dev ino w.getpid))

minimal_ns_main-Watches :
    (w : Answers) → Watches (Leaves w.stat) (in_namespace w.stat) w.getpid (minimal_ns_main w)
unfolding minimal_ns_main
minimal_ns_main-Watches w = elim (Bool-cases w.opens) [
  | inr no_skeleton ↦ rw no_skeleton (inl (λ Q. refl))
  | inl opened ↦ rw opened (elim (Option-cases w.stat) [
    | inl e ↦ rw e (inr (refl, λ Q. refl))
    | inr (sb, e) ↦ rw e (minimal_ns_found-Watches w sb)
  ])
]

-- Whatever the library and the system answer: each of the three programs ends with all that it
-- acquired given back, but that minimal_ns.c leaves its skeleton where `stat` fails; or it goes on,
-- and then prints, for whatever system calls come, the number that getpid returned once for each
-- call of a process that has this number, and nothing else: in the initial namespace, for
-- minimal.c and minimal_legacy.c, which may be another process than their own if they run in
-- another namespace; or in the namespace that `stat` found, for minimal_ns.c.
pub minimal_programs :
    (w : Answers)
    → Watches Balanced by_pid w.getpid (minimal_main w)
      × Watches Balanced by_pid w.getpid (minimal_legacy_main w)
      × Watches (Leaves w.stat) (in_namespace w.stat) w.getpid (minimal_ns_main w)
minimal_programs w =
    (minimal_main-Watches w, minimal_legacy_main-Watches w, minimal_ns_main-Watches w)
