-- ===== src/Tools/Tc/Release.antt =====
-- What `main` of examples/c/tc.c gives back.
use ebpf_nids.Prelude.{
  zero, suc, ◌++◌, ◌⊎◌, inl, inr, Bool-cases, ◌≡◌, refl, Bool, true, false, not, ◌&&◌, List, [],
  ◌∷◌, arith, ◌==◌, if_both,
}
use ebpf_nids.Prelude.Int.{ℤ, pos, negsuc}
use ebpf_nids.Tools.Ledger.{
  Resource, tc_filter, tc_hook, skeleton, Run, count, count-append, Balanced, Keeps,
}
use ebpf_nids.Tools.Tc.{
  Answers, is_zero, is_eexist, hook_of, hook_if, cleanup, tc_attached, tc_main,
}

-- The duty to destroy the hook comes just with the answer that sets the flag.
hook_of_lem : (created : ℤ) → hook_of created ≡ hook_if (is_zero created)
unfolding is_zero
hook_of_lem (pos zero) = refl
hook_of_lem (pos (suc n)) = let e : (suc n == 0) ≡ false = ground arith in rw e refl
hook_of_lem (negsuc n) = refl

module _ (P : Resource → Bool) where
  count_all :
      (b : Bool) (fs : List Resource)
      → count P (skeleton ∷ (hook_if b ++ fs)) ≡ count P (fs ++ (hook_if b ++ (skeleton ∷ [])))
  unfolding count
  count_all true fs = omega (arith, count-append P fs (tc_hook ∷ skeleton ∷ []))
  count_all false fs = omega (arith, count-append P fs (skeleton ∷ []))

  count_but :
      (b : Bool)
      → count P (skeleton ∷ (hook_if b ++ (tc_filter ∷ [])))
        ≡ count P (tc_filter ∷ (hook_if b ++ (skeleton ∷ [])))
  unfolding count
  count_but true = omega arith
  count_but false = omega arith

cleanup-Balanced :
    (created : ℤ) (fs : List Resource) (err : ℤ)
    → Balanced (cleanup created (is_zero created) fs fs err)
unfolding cleanup
cleanup-Balanced created fs err P = rw (hook_of_lem created) (count_all P (is_zero created) fs)

cleanup-Keeps :
    (created err : ℤ)
    → Keeps (tc_filter ∷ []) (cleanup created (is_zero created) (tc_filter ∷ []) [] err)
unfolding cleanup
cleanup-Keeps created err P = rw (hook_of_lem created) (count_but P (is_zero created))

-- All is released, or all but the filter, where the signal handler cannot be set or the filter not
-- be detached.
abbrev pub Releases : Answers → Run → Type 0
Releases w r =
    Balanced r ⊎ (Keeps (tc_filter ∷ []) r × ((w.signal == 0 && is_zero w.detach) ≡ false))

tc_attached-Releases : (w : Answers) → Releases w (tc_attached w (is_zero w.hook_create))
unfolding tc_attached
tc_attached-Releases w = elim (Bool-cases (w.signal == 0)) [
  | inr bad ↦ rw bad (inr (cleanup-Keeps w.hook_create (pos w.signal), refl))
  | inl set ↦ rw set (elim (Bool-cases (is_zero w.detach)) [
    | inr bad ↦ rw bad (inr (cleanup-Keeps w.hook_create w.detach, refl))
    | inl gone ↦ rw gone (inl (cleanup-Balanced w.hook_create (tc_filter ∷ []) w.detach))
  ])
]

-- Whatever the library and the system answer, the tool calls bpf_tc_hook_destroy, once, if and only if
-- its call of bpf_tc_hook_create returned 0, and destroys its program. It detaches the filter that it
-- attached, unless the signal handler cannot be set or the filter cannot be detached: then nothing
-- detaches the filter, and all else is done.
pub tc_main-Releases : (w : Answers) → Releases w (tc_main w)
unfolding tc_main
tc_main-Releases w =
    let created = is_zero w.hook_create in
    let P = Releases w in
    if_both P (not w.open_and_load) (inl (λ Q. refl)) (
      if_both P (not created && not (is_eexist w.hook_create))
        (inl (cleanup-Balanced w.hook_create [] w.hook_create))
        (if_both P (not (is_zero w.attach)) (inl (cleanup-Balanced w.hook_create [] w.attach))
          (tc_attached-Releases w)))
