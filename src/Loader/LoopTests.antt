-- ===== src/Loader/LoopTests.antt =====
-- Runs of the loader as a whole, and its theorems at concrete inputs.
use ebpf_nids.Prelude.{false, ◌≡◌, refl, inl, inr, true, some, none, List, [], ◌∷◌, arith}
use ebpf_nids.Loader.Text.{is_blank}
use ebpf_nids.Loader.Config.{contents, config_defaults, load_config_file}
use ebpf_nids.Loader.Config.Valid.{IsValid, config_defaults-IsValid}
use ebpf_nids.Loader.Config.Lines.{Avoids, print_settings}
use ebpf_nids.Loader.Config.Settings.{drv, settings, IsWritable}
use ebpf_nids.Loader.Config.Printed.{with_mode, load_config_file-settings}
use ebpf_nids.Loader.Clients.{client, again}
use ebpf_nids.Loader.System.{State, Signal, sighup, sigterm, cleanup}
use ebpf_nids.Loader.Startup.{Answers, opt_d, start, initial}
use ebpf_nids.Loader.Startup.Safe.{Outcome, start-Outcome}
use ebpf_nids.Loader.Loop.{Tick, Loop, Ran, run_loop, main}
use ebpf_nids.Loader.Loop.Keeps.{anchors, IsFuelled}
use ebpf_nids.Loader.Loop.Stops.{Stops, HasEnded, main-Stops}
use ebpf_nids.Loader.Loop.Ends.{Final, Comes, Restores, main-Finishes, run_loop-anchored}
use ebpf_nids.Prelude.Int.{pos}
use ebpf_nids.Loader.System.Blocking.{NeverBlocks}
use ebpf_nids.Loader.Loop.Nonblocking.{AllKnowFlags, all_calls, main-NeverBlocks}
use ebpf_nids.Loader.Tests.{file, world, view, alert}

abbrev answers : Answers
answers = record {
  files = λ path. file;
  daemon_ok = true;
  fopen_ok = true;
  rlimit_ok = true;
  socket = record { socket = some 3; flags = pos 2; bind_ok = true; listen_ok = true };
  attach = record {
    open_ok = true;
    load_ok = true;
    index = 2;
    has_prog = true;
    prog_fd_ok = true;
    attach_ok = true;
  };
  ring = record { alert_fd_ok = true; new_ok = true };
  stats_fd_ok = true;
  detach_ok = false;
}

start-Outcome_example : Outcome (start answers (opt_d ∷ []))
start-Outcome_example = start-Outcome answers (opt_d ∷ [])

abbrev tick : List Signal → Tick
tick sigs = record {
  signals = sigs;
  now = 100;
  calls = client 8 ∷ again ∷ [];
  getfl = λ fd. pos 2;
  file = file;
  fopen_ok = true;
  polled = record { payload = some alert; size = 24 } ∷ [];
  view = view;
  world = world;
  fuel = 9;
}

abbrev ticks : List Tick
ticks = tick (sighup ∷ []) ∷ tick (sigterm ∷ []) ∷ []

fuelled : (sigs : List Signal) → IsFuelled (tick sigs)
fuelled sigs = record { keys = 5 ∷ 6 ∷ []; iterates = (refl, (refl, refl)); enough = omega arith }

main-Finishes_example :
    (r : Ran) × (main answers [] ticks ≡ some r) × Final r × Comes (start answers []) ticks r
main-Finishes_example =
    main-Finishes answers [] ticks (fuelled (sighup ∷ []), (fuelled (sigterm ∷ []), tt))

abbrev loop : Loop
loop = record { state = initial; last_stats_ts = 0; made = [] }

-- Attached to interface 2, with a listening socket.
abbrev serving : State
serving = record initial {
  skel = true;
  rb = true;
  ifindex = 2;
  xdp_attached = true;
  server_fd = some 3;
}

abbrev serving_loop : Loop
serving_loop = record { state = serving; last_stats_ts = 0; made = [] }

run_loop-anchored_example :
    (l' : Loop) × (run_loop serving_loop ticks ≡ some l')
    × (anchors l'.state ≡ anchors serving)
    × IsValid l'.state.cfg
    × Restores serving (cleanup true l'.state).1 (cleanup true l'.state).0
run_loop-anchored_example =
    run_loop-anchored true ticks serving_loop (fuelled (sighup ∷ []), (fuelled (sigterm ∷ []), tt))
      (unfold initial in config_defaults-IsValid) (omega arith)

ticks-Stops : Stops ticks
unfolding Stops
ticks-Stops = inr (inl refl)

main-Stops_example : HasEnded (main answers [] ticks)
main-Stops_example =
    main-Stops answers [] ticks (fuelled (sighup ∷ []), (fuelled (sigterm ∷ []), tt)) ticks-Stops

config_defaults-IsWritable : IsWritable config_defaults
unfolding config_defaults Avoids is_blank
config_defaults-IsWritable = ground arith

load_config_file-settings_example :
    load_config_file (contents (print_settings (settings config_defaults drv))) config_defaults
    ≡ (with_mode config_defaults drv, none)
load_config_file-settings_example =
    load_config_file-settings config_defaults config_defaults drv config_defaults-IsWritable

known_flags : AllKnowFlags ticks
known_flags = (λ fd. (2, refl), (λ fd. (2, refl), tt))

main-NeverBlocks_example : (r : Ran) × (main answers [] ticks ≡ some r) × NeverBlocks (all_calls r)
main-NeverBlocks_example =
    main-NeverBlocks answers [] ticks 2 refl known_flags
      (fuelled (sighup ∷ []), (fuelled (sigterm ∷ []), tt))

-- Two rounds, five seconds apart.
abbrev quiet_ticks : List Tick
quiet_ticks = tick [] ∷ record (tick []) { now = 105 } ∷ []
