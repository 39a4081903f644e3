-- ===== src/Loader/Loop/Stops.antt =====
-- That a signal to stop ends the program.
use mathlib.Core.List.{foldl}
use ebpf_nids.Prelude.{
  ℕ, ◌≡◌, refl, ◌⊎◌, inl, inr, Bool, true, false, Option, some, List, [], ◌∷◌, ◌++◌, arith,
  Bool-cases,
}
use ebpf_nids.Loader.Config.Valid.{IsValid}
use ebpf_nids.Loader.System.{State, Effect, Signal, sighup, sigint, sigterm, sig_handler, cleanup}
use ebpf_nids.Loader.Startup.{Answers, Opt, Started, exited, running, start}
use ebpf_nids.Loader.Startup.Safe.{Outcome, start-Outcome}
use ebpf_nids.Loader.Loop.{
  Tick, Loop, signalled, run_loop, Ran, ended, leave_loop, continue_main, main,
}
use ebpf_nids.Loader.Loop.Keeps.{iteration-Keeps, signals-Keeps}
use ebpf_nids.Loader.Loop.Ends.{AllFuelled}

-- SIGINT or SIGTERM is among the signals.
unfoldable pub has_stop : List Signal → Bool
has_stop [] = false
has_stop (sighup ∷ gs) = has_stop gs
has_stop (sigint ∷ gs) = true
has_stop (sigterm ∷ gs) = true

-- One of the rounds finds such a signal.
unfoldable pub Stops : List Tick → Type 0
unfolding has_stop
Stops [] = ⊥
Stops (t ∷ ts) = (has_stop t.signals ≡ true) ⊎ Stops ts

exiting_stays :
    (s : State) (gs : List Signal) → s.exiting ≡ true → (foldl sig_handler s gs).exiting ≡ true
unfolding sig_handler
exiting_stays s [] e = e
exiting_stays s (sighup ∷ gs) e = exiting_stays (sig_handler s sighup) gs e
exiting_stays s (sigint ∷ gs) e = exiting_stays (sig_handler s sigint) gs refl
exiting_stays s (sigterm ∷ gs) e = exiting_stays (sig_handler s sigterm) gs refl

exiting-has_stop :
    (s : State) (gs : List Signal) → has_stop gs ≡ true → (foldl sig_handler s gs).exiting ≡ true
unfolding has_stop sig_handler
exiting-has_stop s [] h = absurd (ground arith)
exiting-has_stop s (sighup ∷ gs) h = exiting-has_stop (sig_handler s sighup) gs h
exiting-has_stop s (sigint ∷ gs) h = exiting_stays (sig_handler s sigint) gs refl
exiting-has_stop s (sigterm ∷ gs) h = exiting_stays (sig_handler s sigterm) gs refl

-- A round that goes on has found no such signal.
later_stop :
    (s : State) (t : Tick) (ts : List Tick)
    → (foldl sig_handler s t.signals).exiting ≡ false
    → Stops (t ∷ ts)
    → Stops ts
unfolding Stops
later_stop s t ts go (inl h) = absurd (ground (arith, exiting-has_stop s t.signals h))
later_stop s t ts go (inr later) = later

run_loop-Stops :
    (ts : List Tick) (l : Loop)
    → AllFuelled ts
    → IsValid l.state.cfg
    → Stops ts
    → (l' : Loop) × (run_loop l ts ≡ some l') × (l'.state.exiting ≡ true)
unfolding run_loop Stops
run_loop-Stops [] l f v h = absurd h
run_loop-Stops (t ∷ ts) l f v h =
    let m = signalled l t.signals in
    elim (Bool-cases m.state.exiting) [
      | inl stop ↦ (m, rw (stop, run_loop) refl, stop)
      | inr go ↦
          let k = signals-Keeps l.state t.signals v in
          let (n, es, done, made, kn) = iteration-Keeps t m f.0 k.kept.config in
          rw (go, run_loop)
            (rw done (run_loop-Stops ts n f.1 kn.kept.config (later_stop l.state t ts go h)))
    ]

-- The program has ended.
abbrev pub HasEnded : Option Ran → Type 0
HasEnded o = (status : ℕ) × (s : State) × (es : List Effect) × (o ≡ some (ended status s es))

continue_main-Stops :
    (ok : Bool) (st : Started) (ts : List Tick)
    → Outcome st
    → AllFuelled ts
    → Stops ts
    → HasEnded (continue_main ok st ts)
unfolding continue_main leave_loop
continue_main-Stops ok (exited status s es) ts o f h = (status, s, es, refl)
continue_main-Stops ok (running s es) ts (b, ready) f h =
    let l : Loop = record { state = s; last_stats_ts = 0; made = es } in
    let (l', done, e) = run_loop-Stops ts l f ready.config h in
    (0, (cleanup ok l'.state).0, l'.made ++ (cleanup ok l'.state).1, rw done (rw e refl))

-- If one of the rounds finds SIGINT or SIGTERM, the program comes to its end, whatever the options,
-- the file and the answers of the system, where the kernel's iterations of the statistics map are
-- finite: it neither stays in its loop nor runs out of fuel.
pub main-Stops :
    (a : Answers) (args : List Opt) (ts : List Tick)
    → AllFuelled ts
    → Stops ts
    → HasEnded (main a args ts)
unfolding main
main-Stops a args ts f h =
    continue_main-Stops a.detach_ok (start a args) ts (start-Outcome a args) f h
