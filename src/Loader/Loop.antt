-- ===== src/Loader/Loop.antt =====
-- The loop of `main` of project_submit/ebpf_control/src/loader.c, and the whole of `main`.
pub mod Steps
pub mod Keeps
pub mod Ends
pub mod Stops
pub mod Nonblocking
pub mod Schedule
use mathlib.Core.List.{foldl, map}
use ebpf_nids.Prelude.{
  ℕ, ◌+◌, Bool, true, false, Option, none, some, List, [], ◌∷◌, ◌++◌, leb, if◌then◌else◌, ◌>>=◌,
}
use ebpf_nids.Prelude.Int.{ℤ}
use ebpf_nids.Kernel.{AlertEvent}
use ebpf_nids.Loader.Config.{File}
use ebpf_nids.Loader.Config.Reload.{Reloaded, reload_config_runtime}
use ebpf_nids.Loader.Clients.{Accepted, accept_clients}
use ebpf_nids.Loader.Clients.Conserve.{handed}
use ebpf_nids.Loader.Publish.{Publisher, Network, handle_alert}
use ebpf_nids.Loader.Stats.{Reporter, World, MapView, read_and_report_stats}
use ebpf_nids.Loader.System.{
  State, Effect, Signal, open_fd, set_flags, set_nonblock, sig_handler, open_log_file, cleanup,
}
use ebpf_nids.Loader.Startup.{Answers, Opt, Started, exited, running, start}

-- A record that `ring_buffer__poll` hands to the callback: the data and their size.
pub record RingRecord : Type 0 where
  pub payload : Option AlertEvent
  pub size : ℕ

-- What happens to one round of the loop: the signals that have come when its condition is read,
-- the time, and what the system answers to each of its calls.
pub record Tick : Type 0 where
  pub signals : List Signal
  pub now : ℕ
  pub calls : List Accepted
  pub getfl : ℕ → ℤ
  pub file : File
  pub fopen_ok : Bool
  pub polled : List RingRecord
  pub view : MapView
  pub world : World
  pub fuel : ℕ

-- The process in its loop: its globals, `last_stats_ts`, and the calls made so far.
pub record Loop : Type 0 where
  pub state : State
  pub last_stats_ts : ℕ
  pub made : List Effect

-- A connection that `accept` returns is made non-blocking at once, by what F_GETFL returns for it.
unfoldable pub accept_calls : (ℕ → ℤ) → List ℕ → List Effect
accept_calls getfl [] = []
accept_calls getfl (cfd ∷ cfds) =
    open_fd cfd ∷ set_flags cfd (set_nonblock (getfl cfd)) ∷ accept_calls getfl cfds

unfoldable pub accept_step : (ℕ → ℤ) → List Accepted → State → State × List Effect
unfolding accept_calls
accept_step getfl calls s =
    let r = accept_clients s.publisher.slots calls in
    (
      record s {
        publisher = record s.publisher { slots = r.0; closed = s.publisher.closed ++ r.1 };
      },
      accept_calls getfl (handed calls),
    )

apply_reloaded : Bool → State → Reloaded → State × List Effect
apply_reloaded fopen_ok s r =
    let s' = record s { cfg = r.cfg; reload_requested = false } in
    let logged = open_log_file fopen_ok s' in
    if r.reopen_log then (logged.0, logged.1) else (s', [])

unfoldable pub reload_step : File → Bool → State → State × List Effect
unfolding apply_reloaded
reload_step file fopen_ok s =
    if s.reload_requested
    then apply_reloaded fopen_ok s (reload_config_runtime s.cfg file)
    else (s, [])

abbrev on_record : Network → Publisher → RingRecord → Publisher
on_record net p r = handle_alert net p r.payload r.size

-- `ring_buffer__poll` calls `handle_alert` on each record; an error of the call is only logged.
unfoldable pub poll_step : Network → List RingRecord → State → State
poll_step net rs s =
    if s.rb then record s { publisher = foldl (on_record net) s.publisher rs } else s

abbrev pub reporter : State → Reporter
reporter s = record { cache = s.cache_head; publisher = s.publisher }

-- `if (now - last_stats_ts >= cfg.stats_interval_sec)`; the difference is signed.
unfoldable pub stats_step : Tick → State → ℕ → Option (State × ℕ)
stats_step t s last =
    if leb (last + s.cfg.stats_interval_sec) t.now
    then (do
      r ← read_and_report_stats t.fuel t.world s.cfg.stats_interval_sec t.view (reporter s)
      some (record s { cache_head = r.cache; publisher = r.publisher }, t.now))
    else some (s, last)

-- The body of the loop; `none` says that the fuel of the statistics loop ran out.
unfoldable pub iteration : Tick → Loop → Option Loop
iteration t l =
    let a = accept_step t.getfl t.calls l.state in
    let b = reload_step t.file t.fopen_ok a.0 in
    let c = poll_step t.world.net t.polled b.0 in
    do
      d ← stats_step t c l.last_stats_ts
      some (record { state = d.0; last_stats_ts = d.1; made = l.made ++ (a.1 ++ b.1) })

abbrev pub signalled : Loop → List Signal → Loop
signalled l sigs = record l { state = foldl sig_handler l.state sigs }

-- `while (!exiting)`, for as many rounds as there are ticks.
unfoldable pub run_loop : Loop → List Tick → Option Loop
run_loop l [] = some l
run_loop l (t ∷ ts) =
    let l' = signalled l t.signals in
    elim l'.state.exiting [ true ↦ some l' | false ↦ (do l'' ← iteration t l'; run_loop l'' ts) ]

-- The program has ended with a status, or is still in its loop after the last tick.
pub data Ran : Type 0 where
  ended : ℕ → State → List Effect → Ran
  looping : Loop → Ran

unfoldable pub leave_loop : Bool → Loop → Ran
leave_loop detach_ok l =
    let end = cleanup detach_ok l.state in
    if l.state.exiting then ended 0 end.0 (l.made ++ end.1) else looping l

unfoldable pub continue_main : Bool → Started → List Tick → Option Ran
continue_main detach_ok (exited status s es) ts = some (ended status s es)
continue_main detach_ok (running s es) ts = do
  l ← run_loop (record { state = s; last_stats_ts = 0; made = es }) ts
  some (leave_loop detach_ok l)

unfoldable pub main : Answers → List Opt → List Tick → Option Ran
unfolding continue_main
main a args ts = continue_main a.detach_ok (start a args) ts
