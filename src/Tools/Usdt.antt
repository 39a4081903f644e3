-- ===== src/Tools/Usdt.antt =====
-- `main` of examples/c/usdt.c, which attaches two USDT probes and triggers them until it is
-- signalled.
use ebpf_nids.Prelude.{
  ℕ, ◌≡◌, refl, Bool, not, List, [], ◌∷◌, ◌++◌, arith, ◌==◌, if◌then◌else◌, if_both,
}
use ebpf_nids.Prelude.Int.{ℤ, pos}
use ebpf_nids.Tools.Ledger.{
  Resource, skeleton, links, usdt_link, Run, count, count-append, Balanced,
}
use ebpf_nids.Tools.Tc.{is_zero, negated}

-- What the library and the system answer: the number of an error, 0 if there is none.
pub record Answers : Type 0 where
  pub opens : Bool
  pub load_result : ℤ
  pub attach_usdt : ℕ
  pub attach : ℤ
  pub signal : ℕ

-- The way to the label `cleanup`; the skeleton's destruction takes its links along.
unfoldable pub cleanup : List Resource → ℤ → Run
unfolding negated
cleanup attached err = record {
  status = negated err;
  acquired = skeleton ∷ attached;
  released = attached ++ (skeleton ∷ []);
}

-- `main`. The test behind `usdt_bpf__load` is on the skeleton, which is not NULL there: the error of
-- the call goes unseen. The wait for a signal is left out: a run ends by one.
unfoldable pub usdt_main : Answers → Run
unfolding cleanup
usdt_main w =
    if not w.opens
    then record { status = pos 1; acquired = []; released = [] }
    else if not (w.attach_usdt == 0)
    then cleanup [] (pos w.attach_usdt)
    else if not (is_zero w.attach)
    then cleanup (usdt_link ∷ []) w.attach
    else if not (w.signal == 0)
    then cleanup (usdt_link ∷ links ∷ []) (pos w.signal)
    else cleanup (usdt_link ∷ links ∷ []) w.attach

cleanup-Balanced : (attached : List Resource) (err : ℤ) → Balanced (cleanup attached err)
unfolding cleanup count
cleanup-Balanced attached err = λ P. omega (arith, count-append P attached (skeleton ∷ []))

-- What the tool acquires it gives back.
pub usdt_main-Balanced : (w : Answers) → Balanced (usdt_main w)
unfolding usdt_main
usdt_main-Balanced w =
    if_both Balanced (not w.opens) (λ P. refl)
      (if_both Balanced (not (w.attach_usdt == 0)) (cleanup-Balanced [] (pos w.attach_usdt)) (
        if_both Balanced (not (is_zero w.attach)) (cleanup-Balanced (usdt_link ∷ []) w.attach) (
          if_both Balanced (not (w.signal == 0))
            (cleanup-Balanced (usdt_link ∷ links ∷ []) (pos w.signal))
            (cleanup-Balanced (usdt_link ∷ links ∷ []) w.attach))))

-- Whether the program loads makes no difference.
pub usdt_main-load_result :
    (w : Answers) (err : ℤ) → usdt_main (record w { load_result = err }) ≡ usdt_main w
unfolding usdt_main
usdt_main-load_result w err = refl
