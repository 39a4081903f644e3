-- ===== src/Loader/Startup/Nonblocking.antt =====
-- Through the start of project_submit/ebpf_control/src/loader.c no descriptor is left blocking.
use ebpf_nids.Prelude.{ℕ, ◌≡◌, refl, Bool, not, ◌&&◌, Option, none, some, List, ◌++◌, ◌==◌, if_both}
use ebpf_nids.Prelude.Int.{pos}
use ebpf_nids.Loader.Config.{Loaded}
use ebpf_nids.Loader.System.{State, Effect, open_log_file}
use ebpf_nids.Loader.System.Blocking.{
  NeverBlocks, NeverBlocks-nil, NeverBlocks-append, NeverBlocks-cons, NeverBlocks-open, is_other,
  cleanup-NeverBlocks, open_log_file-NeverBlocks,
}
use ebpf_nids.Loader.Startup.{
  Step, AttachAnswers, RingAnswers, bind_and_listen, setup_unix_server, load_and_attach_bpf,
  setup_ring_buffer, Opt, Cli, Parsed, options, usage, parse_options, cli_defaults, Answers,
  Started, exited, running, or_cleanup, find_stats_map, start_services, start_log, start_daemon,
  start_config, start_parsed, start, bump_memlock_rlimit,
}

-- The calls made so far.
abbrev pub calls_of : Started → List Effect
calls_of (exited status s es) = es
calls_of (running s es) = es

abbrev pub StartsUnblocked : Started → Type 0
StartsUnblocked st = NeverBlocks (calls_of st)

module _ (a : Answers) (n : ℕ) (known : a.socket.flags ≡ pos n) where
  bind_and_listen-NeverBlocks :
      (s : State) (o : Option ℕ) → NeverBlocks (bind_and_listen a.socket s o).1
  unfolding bind_and_listen is_other
  bind_and_listen-NeverBlocks s none = NeverBlocks-nil
  bind_and_listen-NeverBlocks s (some fd) =
      let P = λ (r : Step). NeverBlocks r.1 in
      if_both P (not a.socket.bind_ok)
        (rw known (
          NeverBlocks-open fd n _
            (NeverBlocks-cons _ _ refl (NeverBlocks-cons _ _ refl NeverBlocks-nil))))
        (if_both P (not a.socket.listen_ok)
          (rw known (
            NeverBlocks-open fd n _ (
              NeverBlocks-cons _ _ refl (
                NeverBlocks-cons _ _ refl (
                  NeverBlocks-cons _ _ refl
                    (NeverBlocks-cons _ _ refl (NeverBlocks-cons _ _ refl NeverBlocks-nil)))))))
          (rw known (
            NeverBlocks-open fd n _ (
              NeverBlocks-cons _ _ refl
                (NeverBlocks-cons _ _ refl (NeverBlocks-cons _ _ refl NeverBlocks-nil))))))

  setup_unix_server-NeverBlocks : (s : State) → NeverBlocks (setup_unix_server a.socket s).1
  unfolding setup_unix_server
  setup_unix_server-NeverBlocks s = bind_and_listen-NeverBlocks s a.socket.socket

load_and_attach_bpf-NeverBlocks :
    (w : AttachAnswers) (s : State) → NeverBlocks (load_and_attach_bpf w s).1
unfolding load_and_attach_bpf is_other
load_and_attach_bpf-NeverBlocks w s =
    let P = λ (r : Step). NeverBlocks r.1 in
    let one = NeverBlocks-cons _ _ refl NeverBlocks-nil in
    if_both P (not w.open_ok) NeverBlocks-nil (
      if_both P (not w.load_ok) one (
        if_both P (w.index == 0) one (
          if_both P (not w.has_prog) one (
            if_both P (not w.prog_fd_ok) one (
              if_both P (not w.attach_ok) one
                (NeverBlocks-cons _ _ refl (NeverBlocks-cons _ _ refl NeverBlocks-nil)))))))

setup_ring_buffer-NeverBlocks :
    (w : RingAnswers) (s : State) → NeverBlocks (setup_ring_buffer w s).1
unfolding setup_ring_buffer is_other
setup_ring_buffer-NeverBlocks w s =
    let P = λ (r : Step). NeverBlocks r.1 in
    if_both P (not w.alert_fd_ok) NeverBlocks-nil
      (if_both P (not w.new_ok) NeverBlocks-nil (NeverBlocks-cons _ _ refl NeverBlocks-nil))

or_cleanup-Unblocked :
    (ok : Bool) (r : Step) (done : List Effect) (next : State → List Effect → Started)
    → NeverBlocks done
    → NeverBlocks r.1
    → (NeverBlocks (done ++ r.1) → StartsUnblocked (next r.0 (done ++ r.1)))
    → StartsUnblocked (or_cleanup ok r done next)
unfolding or_cleanup
or_cleanup-Unblocked ok r done next h k go =
    let joined = NeverBlocks-append done r.1 h k in
    if_both StartsUnblocked r.2 (go joined)
      (NeverBlocks-append (done ++ r.1) _ joined (cleanup-NeverBlocks ok r.0))

module _ (a : Answers) (n : ℕ) (known : a.socket.flags ≡ pos n) where
  start_services-Unblocked :
      (s : State) (done : List Effect)
      → NeverBlocks done
      → StartsUnblocked (start_services a s done)
  unfolding start_services find_stats_map
  start_services-Unblocked s done h =
      or_cleanup-Unblocked a.detach_ok _ done _ h (setup_unix_server-NeverBlocks a n known s) λ h1.
        or_cleanup-Unblocked a.detach_ok _ _ _ h1 (load_and_attach_bpf-NeverBlocks a.attach _) λ h2.
          or_cleanup-Unblocked a.detach_ok _ _ _ h2 (setup_ring_buffer-NeverBlocks a.ring _)
            λ h3. or_cleanup-Unblocked a.detach_ok _ _ running h3 NeverBlocks-nil λ h4. h4

  start_log-Unblocked : (s : State) → StartsUnblocked (start_log a s)
  unfolding start_log bump_memlock_rlimit is_other
  start_log-Unblocked s =
      let r = open_log_file a.fopen_ok s in
      let logged = open_log_file-NeverBlocks a.fopen_ok s in
      if_both StartsUnblocked r.2
        (start_services-Unblocked r.0 _
          (NeverBlocks-append r.1 _ logged (NeverBlocks-cons _ _ refl NeverBlocks-nil)))
        logged

  start_daemon-Unblocked : (s : State) → StartsUnblocked (start_daemon a s)
  unfolding start_daemon
  start_daemon-Unblocked s =
      if_both StartsUnblocked (not (s.cfg.daemon_mode == 0) && not a.daemon_ok) NeverBlocks-nil
        (start_log-Unblocked s)

  start_config-Unblocked : (c : Cli) (r : Loaded) → StartsUnblocked (start_config a c r)
  unfolding start_config
  start_config-Unblocked c (cfg, some e) = NeverBlocks-nil
  start_config-Unblocked c (cfg, none) = start_daemon-Unblocked _

  start_parsed-Unblocked : (p : Parsed) → StartsUnblocked (start_parsed a p)
  unfolding start_parsed
  start_parsed-Unblocked (usage status) = NeverBlocks-nil
  start_parsed-Unblocked (options c) = start_config-Unblocked c _

  pub start-Unblocked : (args : List Opt) → StartsUnblocked (start a args)
  unfolding start
  start-Unblocked args = start_parsed-Unblocked (parse_options cli_defaults args)
