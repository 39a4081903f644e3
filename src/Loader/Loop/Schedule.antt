-- ===== src/Loader/Loop/Schedule.antt =====
-- When the loop of project_submit/ebpf_control/src/loader.c reports the statistics.
use ebpf_nids.Prelude.{
  ℕ, ◌+◌, ◌*◌, ◌≤◌, ◌<◌, ◌≡◌, ◌⊎◌, Bool, true, false, Option, none, some, List, [], ◌∷◌, ◌==◌,
  if◌then◌else◌,
}
use ebpf_nids.Loader.Stats.{read_and_report_stats}
use ebpf_nids.Loader.System.{State, Signal, sighup, sigint, sigterm}
use ebpf_nids.Loader.Loop.{
  Tick, Loop, signalled, accept_step, reload_step, poll_step, iteration, run_loop, reporter,
}

-- A round of the loop: what comes in it, the process before its `if` on the statistics, and the loop
-- after it.
pub record Stamp : Type 0 where
  pub tick : Tick
  pub before : State
  pub after : Loop

-- A round up to the statistics: the clients, the reload and the ring buffer.
abbrev pub before_report : Tick → Loop → State
before_report t l =
    let a = (accept_step t.getfl t.calls l.state).0 in
    poll_step t.world.net t.polled (reload_step t.file t.fopen_ok a).0

-- The rounds that the loop goes through.
unfoldable pub rounds : Loop → List Tick → List Stamp
rounds l [] = []
rounds l (t ∷ ts) =
    let m = signalled l t.signals in
    elim m.state.exiting [
      | true ↦ []
      | false ↦ elim (iteration t m) [
        | none ↦ []
        | some n ↦ record { tick = t; before = before_report t m; after = n } ∷ rounds n ts
      ]
    ]

-- How often `last_stats_ts` is set.
unfoldable pub reports_made : ℕ → List Stamp → ℕ
reports_made last [] = 0
reports_made last (r ∷ rs) =
    (if r.after.last_stats_ts == last then 0 else 1) + reports_made r.after.last_stats_ts rs

-- A round from `last_stats_ts` at `last` that follows the timetable: it sends nothing about the
-- statistics and leaves the time, or it comes an interval or more later, sets the time, and leaves the
-- cache and the clients as a whole report does. Either way the time is less than an interval back.
pub record Punctual (interval : ℕ) (t : Tick) (before : State) (last : ℕ) (after : State)
    (last' : ℕ) : Type 0 where
  pub apart :
      ((last' ≡ last) × (reporter after ≡ reporter before))
      ⊎ ((last + interval ≤ last')
          × (read_and_report_stats t.fuel t.world interval t.view (reporter before)
              ≡ some (reporter after)))
  pub recent : t.now < last' + interval

unfoldable pub AllPunctual : ℕ → ℕ → List Stamp → Type 0
AllPunctual interval last [] = Unit {0}
AllPunctual interval last (r ∷ rs) =
    Punctual interval r.tick r.before last r.after.state r.after.last_stats_ts
    × AllPunctual interval r.after.last_stats_ts rs

-- No request to reload comes.
unfoldable pub no_hangup : List Signal → Bool
no_hangup [] = true
no_hangup (sighup ∷ gs) = false
no_hangup (sigint ∷ gs) = no_hangup gs
no_hangup (sigterm ∷ gs) = no_hangup gs

abbrev pub NoHangups : List Tick → Type 0
NoHangups [] = Unit {0}
NoHangups (t ∷ ts) = (no_hangup t.signals ≡ true) × NoHangups ts

-- Nothing asks for a reload, and the interval is this one.
pub record IsSteady (interval : ℕ) (s : State) : Type 0 where
  pub quiet : s.reload_requested ≡ false
  pub every : s.cfg.stats_interval_sec ≡ interval

-- A state with a time, if there is one, that a punctual round leaves.
abbrev Timed : ℕ → Tick → State → ℕ → Option (State × ℕ) → Type 0
Timed i t s last none = Unit {0}
Timed i t s last (some r) = Punctual i t s last r.0 r.1 × IsSteady i r.0

abbrev TimedLoop : ℕ → Tick → State → ℕ → Option Loop → Type 0
TimedLoop i t s last none = Unit {0}
TimedLoop i t s last (some l) = Punctual i t s last l.state l.last_stats_ts × IsSteady i l.state

-- The loop comes to a state, and the rounds up to it are on time.
abbrev pub OnTime : ℕ → Loop → List Tick → Type 0
OnTime interval l ts =
    (l' : Loop) × (run_loop l ts ≡ some l')
    × (reports_made l.last_stats_ts (rounds l ts) * interval + l.last_stats_ts ≤ l'.last_stats_ts)
    × AllPunctual interval l.last_stats_ts (rounds l ts)
