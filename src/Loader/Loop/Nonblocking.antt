-- ===== src/Loader/Loop/Nonblocking.antt =====
-- In the loop of project_submit/ebpf_control/src/loader.c no descriptor is left blocking.
use ebpf_nids.Prelude.{
  ℕ, ◌≡◌, sym, Bool, Option, none, some, List, [], ◌∷◌, ◌++◌, arith, if_both, Bool-cases,
  Option-cases, inl, inr,
}
use mathlib.Core.Path.{subst}
use ebpf_nids.Prelude.Int.{ℤ, pos}
use ebpf_nids.Loader.Config.{File}
use ebpf_nids.Loader.Config.Reload.{reload_config_runtime}
use ebpf_nids.Loader.Clients.Conserve.{handed}
use ebpf_nids.Loader.System.{State, Effect}
use ebpf_nids.Loader.System.Blocking.{
  NeverBlocks, NeverBlocks-nil, NeverBlocks-append, NeverBlocks-open, cleanup-NeverBlocks,
  open_log_file-NeverBlocks,
}
use ebpf_nids.Loader.Startup.{Answers, Opt, Started, exited, running, start}
use ebpf_nids.Loader.Startup.Nonblocking.{StartsUnblocked, start-Unblocked}
use ebpf_nids.Loader.Loop.{
  Tick, Loop, signalled, accept_calls, accept_step, reload_step, poll_step, stats_step, iteration,
  run_loop, Ran, ended, looping, leave_loop, continue_main, main,
}
use ebpf_nids.Loader.Loop.Ends.{AllFuelled, main-Finishes}

-- F_GETFL succeeds on every connection.
abbrev pub KnowsFlags : (ℕ → ℤ) → Type 0
KnowsFlags getfl = (fd : ℕ) → (flags : ℕ) × (getfl fd ≡ pos flags)

abbrev pub AllKnowFlags : List Tick → Type 0
AllKnowFlags [] = Unit {0}
AllKnowFlags (t ∷ ts) = KnowsFlags t.getfl × AllKnowFlags ts

accept_calls-NeverBlocks :
    (getfl : ℕ → ℤ) (fds : List ℕ) → KnowsFlags getfl → NeverBlocks (accept_calls getfl fds)
unfolding accept_calls
accept_calls-NeverBlocks getfl [] h = NeverBlocks-nil
accept_calls-NeverBlocks getfl (fd ∷ fds) h =
    let (flags, e) = h fd in
    rw e (NeverBlocks-open fd flags _ (accept_calls-NeverBlocks getfl fds h))

reload_step-NeverBlocks :
    (file : File) (ok : Bool) (s : State) → NeverBlocks (reload_step file ok s).1
unfolding reload_step
reload_step-NeverBlocks file ok s =
    let P = λ (r : State × List Effect). NeverBlocks r.1 in
    if_both P s.reload_requested
      (if_both P (reload_config_runtime s.cfg file).reopen_log (open_log_file-NeverBlocks ok _)
        NeverBlocks-nil)
      NeverBlocks-nil

abbrev round_calls : Tick → Loop → List Effect
round_calls t l =
    (accept_step t.getfl t.calls l.state).1
    ++ (reload_step t.file t.fopen_ok (accept_step t.getfl t.calls l.state).0).1

-- The calls that a round makes.
iteration-made :
    (t : Tick) (l n : Loop) → iteration t l ≡ some n → n.made ≡ l.made ++ round_calls t l
unfolding iteration
iteration-made t l n e =
    let a = accept_step t.getfl t.calls l.state in
    let b = reload_step t.file t.fopen_ok a.0 in
    let c = poll_step t.world.net t.polled b.0 in
    elim (Option-cases (stats_step t c l.last_stats_ts)) [
      | inl out ↦ ground (arith, e, out)
      | inr (d, done) ↦ ground (arith, e, done)
    ]

iteration-NeverBlocks :
    (t : Tick) (l n : Loop)
    → KnowsFlags t.getfl
    → iteration t l ≡ some n
    → NeverBlocks l.made
    → NeverBlocks n.made
unfolding accept_step
iteration-NeverBlocks t l n k e h = subst NeverBlocks (sym (iteration-made t l n e)) (
    NeverBlocks-append l.made _ h (
      NeverBlocks-append _ _ (accept_calls-NeverBlocks t.getfl (handed t.calls) k)
        (reload_step-NeverBlocks t.file t.fopen_ok _)))

-- A loop that has come to a result leaves no descriptor blocking.
abbrev LoopUnblocked : Option Loop → Type 0
LoopUnblocked none = Unit {0}
LoopUnblocked (some l) = NeverBlocks l.made

run_loop-Unblocked :
    (ts : List Tick) (l : Loop)
    → AllKnowFlags ts
    → NeverBlocks l.made
    → LoopUnblocked (run_loop l ts)
unfolding run_loop
run_loop-Unblocked [] l k h = h
run_loop-Unblocked (t ∷ ts) l k h =
    let m = signalled l t.signals in
    elim (Bool-cases m.state.exiting) [
      | inl stop ↦ rw (stop, run_loop) h
      | inr go ↦
          rw (go, run_loop)
            (elim (Option-cases (iteration t m)) [
              | inl out ↦ rw out tt
              | inr (l', done) ↦
                  rw done (run_loop-Unblocked ts l' k.1 (iteration-NeverBlocks t m l' k.0 done h))
            ])
    ]

-- The calls of a program that has ended, or is in its loop.
abbrev pub all_calls : Ran → List Effect
all_calls (ended status s es) = es
all_calls (looping l) = l.made

abbrev RanUnblocked : Option Ran → Type 0
RanUnblocked none = Unit {0}
RanUnblocked (some r) = NeverBlocks (all_calls r)

leave_loop-Unblocked :
    (ok : Bool) (l : Loop) → NeverBlocks l.made → NeverBlocks (all_calls (leave_loop ok l))
unfolding leave_loop
leave_loop-Unblocked ok l h =
    if_both (λ (r : Ran). NeverBlocks (all_calls r)) l.state.exiting
      (NeverBlocks-append l.made _ h (cleanup-NeverBlocks ok l.state)) h

continue_main-Unblocked :
    (ok : Bool) (st : Started) (ts : List Tick)
    → StartsUnblocked st
    → AllKnowFlags ts
    → RanUnblocked (continue_main ok st ts)
unfolding continue_main
continue_main-Unblocked ok (exited status s es) ts h k = h
continue_main-Unblocked ok (running s es) ts h k =
    let l : Loop = record { state = s; last_stats_ts = 0; made = es } in
    elim (Option-cases (run_loop l ts)) [
      | inl out ↦ rw out tt
      | inr (l', done) ↦
          rw done
            (leave_loop-Unblocked ok l' (subst LoopUnblocked done (run_loop-Unblocked ts l k h)))
    ]

-- Where F_GETFL succeeds on the listening socket and on each connection, and the kernel's iterations
-- of the statistics map are finite: the program comes to its end or is in its loop, and none of
-- the descriptors that it has opened is left blocking: each has got O_NONBLOCK since it was opened,
-- also where the kernel gives out a number again.
pub main-NeverBlocks :
    (a : Answers) (args : List Opt) (ts : List Tick) (flags : ℕ)
    → a.socket.flags ≡ pos flags
    → AllKnowFlags ts
    → AllFuelled ts
    → (r : Ran) × (main a args ts ≡ some r) × NeverBlocks (all_calls r)
unfolding main
main-NeverBlocks a args ts flags known k f =
    let (r, done, end, from) = main-Finishes a args ts f in
    (
      r,
      done,
      subst RanUnblocked done (
          continue_main-Unblocked a.detach_ok (start a args) ts (start-Unblocked a flags known args)
            k),
    )
