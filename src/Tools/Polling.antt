-- ===== src/Tools/Polling.antt =====
-- The loops in which the tools of examples/c poll their buffers until a signal comes.
use mathlib.Core.Option
use ebpf_nids.Prelude.{
  ◌≡◌, Bool, true, false, ◌||◌, Option, none, some, List, [], ◌∷◌, arith, ◌==◌, if◌then◌else◌,
  if_both, Bool-cases, inl, inr,
}
use ebpf_nids.Prelude.Int.{ℤ, pos, negsuc}
use ebpf_nids.Tools.Ledger.{Run, Leaves}

-- A round: whether a signal has come before its test, and what the poll returns in it.
pub record Round : Type 0 where
  pub stopped : Bool
  pub polled : ℤ

unfoldable pub is_negative : ℤ → Bool
is_negative (pos n) = false
is_negative (negsuc n) = true

-- `err == -EINTR`
unfoldable pub is_eintr : ℤ → Bool
is_eintr (pos n) = false
is_eintr (negsuc n) = n == 3

-- The loops of bootstrap.c, bootstrap_legacy.c and sockfilter.c, from the value of `err` before
-- them: the value after them, `none` while the polling goes on.
unfoldable pub poll_loop : ℤ → List Round → Option ℤ
unfolding is_negative is_eintr
poll_loop err [] = none
poll_loop err (r ∷ rs) =
    let rest = poll_loop r.polled rs in
    if r.stopped
    then some err
    else if is_eintr r.polled
    then some (pos 0)
    else if is_negative r.polled
    then some r.polled
    else rest

-- A signal comes, or a poll fails.
unfoldable pub polling_ends : List Round → Bool
polling_ends [] = false
polling_ends (r ∷ rs) = r.stopped || is_negative r.polled || polling_ends rs

-- Polling that ends has what stands behind the loop done, and with it what holds for every `err`.
pub poll_loop-Leaves :
    (P : Run → Type 0) (finish : ℤ → Run)
    → ((err : ℤ) → P (finish err))
    → (err : ℤ) (rounds : List Round) → polling_ends rounds ≡ true
    → Leaves P (Option.map finish (poll_loop err rounds))
unfolding Leaves poll_loop polling_ends
poll_loop-Leaves P finish h err [] e = absurd (ground (arith, e))
poll_loop-Leaves P finish h err (r ∷ rs) e =
    let Done = λ (o : Option ℤ). Leaves P (Option.map finish o) in
    elim (Bool-cases r.stopped) [
      | inl s ↦ rw s (h err)
      | inr s ↦ rw s (
          if_both Done (is_eintr r.polled) (h (pos 0)) (elim (Bool-cases (is_negative r.polled)) [
            | inl n ↦ rw n (h r.polled)
            | inr n ↦ rw n (poll_loop-Leaves P finish h r.polled rs (e' s n))
          ]))
    ]
  where
    e' : r.stopped ≡ false → is_negative r.polled ≡ false → polling_ends rs ≡ true
    e' s n = ground (arith, e, s, n)
