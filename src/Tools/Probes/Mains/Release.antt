-- ===== src/Tools/Probes/Mains/Release.antt =====
-- What the sample programs that attach a probe give back when they end.
use ebpf_nids.Prelude.{refl, Bool, not, Option, none, some, List, ◌==◌, if_both}
use ebpf_nids.Prelude.Int.{ℤ, pos}
use ebpf_nids.Tools.Ledger.{Run, Balanced}
use ebpf_nids.Tools.Tc.{is_zero, negated}
use ebpf_nids.Tools.Probes.Mains.{
  Answers, cleanup, stop_loop, kprobe_main, fentry_main, ksyscall_main, lsm_main, uprobe_main,
}

pub cleanup-Balanced : (err : ℤ) → Balanced (cleanup err)
unfolding cleanup
cleanup-Balanced err = λ P. refl

-- A run that is still going on holds what it needs.
abbrev pub IfEnded : Option Run → Type 0
IfEnded none = Unit {0}
IfEnded (some r) = Balanced r

kprobe_main-IfEnded : (w : Answers) (stops : List Bool) → IfEnded (kprobe_main w stops)
unfolding kprobe_main
kprobe_main-IfEnded w stops =
    let fine = cleanup-Balanced w.attach in
    if_both IfEnded (not w.opens) (λ P. refl)
      (if_both IfEnded (not (is_zero w.attach)) fine
        (if_both IfEnded (not w.signal_ok) fine (if_both IfEnded (stop_loop stops) fine tt)))

lsm_main-IfEnded : (w : Answers) (err : ℤ) → IfEnded (lsm_main w err)
unfolding lsm_main
lsm_main-IfEnded w err =
    if_both IfEnded (not w.opens) (λ P. refl)
      (if_both IfEnded (not (is_zero w.attach)) (cleanup-Balanced w.attach) tt)

uprobe_main-IfEnded : (w : Answers) → IfEnded (uprobe_main w)
unfolding uprobe_main
uprobe_main-IfEnded w =
    if_both IfEnded (not w.opens) (λ P. refl)
      (if_both IfEnded (not (w.uprobe_errno == 0)) (cleanup-Balanced (negated (pos w.uprobe_errno)))
        (if_both IfEnded (not (w.uretprobe_errno == 0))
          (cleanup-Balanced (negated (pos w.uretprobe_errno)))
          (if_both IfEnded (not (is_zero w.attach)) (cleanup-Balanced w.attach) tt)))

-- Whatever the library and the system answer, each of these programs gives back what it acquired
-- when it ends.
pub probes_release :
    (w : Answers) (stops : List Bool) (uninitialised : ℤ)
    → IfEnded (kprobe_main w stops)
      × IfEnded (fentry_main w stops)
      × IfEnded (ksyscall_main w stops)
      × IfEnded (lsm_main w uninitialised)
      × IfEnded (uprobe_main w)
unfolding fentry_main ksyscall_main
probes_release w stops err =
    let k = kprobe_main-IfEnded w stops in (k, k, k, lsm_main-IfEnded w err, uprobe_main-IfEnded w)
