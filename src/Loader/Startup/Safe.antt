-- ===== src/Loader/Startup/Safe.antt =====
-- However the start goes, nothing leaks.
use ebpf_nids.Prelude.{
  ◌<◌, ◌≡◌, ◌≢◌, ◌⊎◌, refl, sym, ◌∙◌, Bool, true, false, none, some, List, [], ◌∷◌, ◌++◌, arith,
  ◌==◌, Bool-cases, inl, inr, if_both, not, ◌&&◌, length-take,
}
use mathlib.Core.Path.{subst}
use ebpf_nids.Prelude.Text.{Bytes}
use ebpf_nids.Loader.Config.{AppConfig, Loaded, config_defaults, load_config_file}
use ebpf_nids.Loader.Config.Valid.{IsValid, config_defaults-IsValid, load_config_file-IsValid}
use ebpf_nids.Loader.Clients.Conserve.{held}
use ebpf_nids.Loader.System.{State, Effect, open_log_file, cleanup}
use ebpf_nids.Loader.System.Ledger.{Resource, holds, Squares, Squares-trans}
use ebpf_nids.Loader.System.Files.{cleanup-Files}
use ebpf_nids.Loader.Startup.Files.{
  setup_unix_server-Files, load_and_attach_bpf-Files, setup_ring_buffer-Files, find_stats_map-Files,
  bump_memlock_rlimit-Files, open_log_file-Squares,
}
use ebpf_nids.Loader.System.Release.{IsAttachedWell, cleanup-holds, cleanup-Balanced}
use ebpf_nids.Loader.Startup.{
  Step, setup_unix_server, load_and_attach_bpf, setup_ring_buffer, Opt, opt_c, opt_i, opt_d, opt_h,
  unknown, override_ifname, Cli, Parsed, options, usage, parse_options, cli_defaults, override,
  initial, Answers, Started, exited, running, or_cleanup, find_stats_map, start_services, start_log,
  start_daemon, start_config, start_parsed, start, bump_memlock_rlimit,
}
use ebpf_nids.Loader.Startup.Blank.{
  at_start, holds_nothing, at_start-held, at_start-holds, at_start-Squares, Gone, Squares-Gone,
}
use ebpf_nids.Loader.Startup.Steps.{
  setup_unix_server-Balanced, load_and_attach_bpf-Balanced, setup_ring_buffer-Balanced,
  setup_unix_server-rest, setup_unix_server-serves, load_and_attach_bpf-rest,
  load_and_attach_bpf-attaches, load_and_attach_bpf-IsAttachedWell, setup_ring_buffer-rest,
  setup_ring_buffer-opens, find_stats_map_lem, open_log_file-rest, open_log_file_fails,
  bump_memlock_rlimit-Balanced,
}

-- What stands when the loop begins.
pub record IsReady (s : State) : Type 0 where
  pub ring_open : s.rb ≡ true
  pub skeleton_open : s.skel ≡ true
  pub attached : s.xdp_attached ≡ true
  pub interface : 0 < s.ifindex
  pub serving : s.server_fd ≢ none
  pub config : IsValid s.cfg

-- An end of the start: the calls balance, and a program that has ended holds nothing.
abbrev pub Outcome : Started → Type 0
Outcome (exited status s es) = Gone es s
Outcome (running s es) = Squares initial es s × IsReady s

-- Nothing is held but perhaps the log.
record IsIdle (s : State) : Type 0 where
  server : s.server_fd ≡ none
  skel : s.skel ≡ false
  attached : s.xdp_attached ≡ false
  rb : s.rb ≡ false
  clients : held s.publisher.slots ≡ []
  valid : IsValid s.cfg

pub cleanup-Gone :
    (ok : Bool) (s : State) (done : List Effect)
    → Squares initial done s
    → IsAttachedWell s
    → Gone (done ++ (cleanup ok s).1) (cleanup ok s).0
unfolding cleanup
cleanup-Gone ok s done q w =
    Squares-Gone _ _
      (Squares-trans initial s (cleanup ok s).0 done (cleanup ok s).1 q
        (record { balanced = cleanup-Balanced ok s w; files = cleanup-Files ok s }))
      (λ r. cleanup-holds ok s r w) refl

at_start-Gone : (cfg : AppConfig) → Gone [] (at_start cfg)
at_start-Gone cfg =
    Squares-Gone [] (at_start cfg) (at_start-Squares cfg) (at_start-holds cfg)
      (unfold initial in refl)

or_cleanup-Outcome :
    (ok : Bool) (s : State) (r : Step) (done : List Effect) (next : State → List Effect → Started)
    → Squares initial done s
    → Squares s r.1 r.0
    → IsAttachedWell r.0
    → (r.2 ≡ true → Squares initial (done ++ r.1) r.0 → Outcome (next r.0 (done ++ r.1)))
    → Outcome (or_cleanup ok r done next)
unfolding or_cleanup
or_cleanup-Outcome ok s r done next b c w go =
    let joined = Squares-trans initial s r.0 done r.1 b c in
    elim (Bool-cases r.2) [
      | inl fine ↦ rw fine (go fine joined)
      | inr wrong ↦ rw wrong (cleanup-Gone ok r.0 (done ++ r.1) joined w)
    ]

start_services-Outcome :
    (a : Answers) (s : State) (done : List Effect)
    → Squares initial done s
    → IsIdle s
    → Outcome (start_services a s done)
unfolding start_services find_stats_map
start_services-Outcome a s done b i =
    let ok = a.detach_ok in
    let r1 = setup_unix_server a.socket s in
    let (skel1, att1, rb1, cfg1) = setup_unix_server-rest a.socket s in
    let r2 = load_and_attach_bpf a.attach r1.0 in
    let (rb2, cfg2, srv2) = load_and_attach_bpf-rest a.attach r1.0 in
    let r3 = setup_ring_buffer a.ring r2.0 in
    let (skel3, att3, idx3, cfg3, srv3) = setup_ring_buffer-rest a.ring r2.0 in
    let r4 = find_stats_map a.stats_fd_ok r3.0 in
    or_cleanup-Outcome ok s r1 done _ b
      (record {
        balanced = setup_unix_server-Balanced a.socket s i.server;
        files = setup_unix_server-Files a.socket s i.server;
      })
      (λ h. cc (att1, i.attached))
      λ ok1 b1.
        or_cleanup-Outcome ok r1.0 r2 _ _ b1
          (record {
            balanced =
                load_and_attach_bpf-Balanced a.attach r1.0 (skel1 ∙ i.skel) (att1 ∙ i.attached);
            files = load_and_attach_bpf-Files a.attach r1.0;
          })
          (load_and_attach_bpf-IsAttachedWell a.attach r1.0 (att1 ∙ i.attached))
          λ ok2 b2.
            let (skel2, att2, idx2) = load_and_attach_bpf-attaches a.attach r1.0 ok2 in
            or_cleanup-Outcome ok r2.0 r3 _ _ b2
              (record {
                balanced = setup_ring_buffer-Balanced a.ring r2.0 (rb2 ∙ rb1 ∙ i.rb);
                files = setup_ring_buffer-Files a.ring r2.0;
              })
              (λ h. rw idx3 idx2)
              λ ok3 b3.
                or_cleanup-Outcome ok r3.0 r4 _ running b3
                  (record {
                    balanced = find_stats_map_lem a.stats_fd_ok r3.0;
                    files = find_stats_map-Files a.stats_fd_ok r3.0;
                  })
                  (λ h. rw idx3 idx2)
                  λ ok4 b4. (
                    b4,
                    record {
                      ring_open = setup_ring_buffer-opens a.ring r2.0 ok3;
                      skeleton_open = skel3 ∙ skel2;
                      attached = att3 ∙ att2;
                      interface = rw idx3 idx2;
                      serving =
                          λ e. setup_unix_server-serves a.socket s ok1 (sym srv2 ∙ sym srv3 ∙ e);
                      config = subst IsValid (sym (cfg3 ∙ cfg2 ∙ cfg1)) i.valid;
                    },
                  )

module _ (ok : Bool) (cfg : AppConfig) where
  abbrev logged : State
  logged = (open_log_file ok (at_start cfg)).0

  logged-IsIdle : IsValid cfg → IsIdle logged
  logged-IsIdle v =
      let (c, p, sv, sk, at, ix, rb) = open_log_file-rest ok (at_start cfg) in
      record {
        server = unfold initial in sv;
        skel = unfold initial in sk;
        attached = unfold initial in at;
        rb = unfold initial in rb;
        clients = rw p (at_start-held cfg);
        valid = subst IsValid (sym c) v;
      }

  logged-holds : (r : Resource) → IsIdle logged → logged.log_fp ≡ false → holds r logged ≡ 0
  logged-holds r i h = holds_nothing logged r (i.server, i.skel, i.attached, i.rb, i.clients, h)

start_log-Outcome :
    (a : Answers) (cfg : AppConfig) → IsValid cfg → Outcome (start_log a (at_start cfg))
unfolding start_log bump_memlock_rlimit
start_log-Outcome a cfg v =
    let r = open_log_file a.fopen_ok (at_start cfg) in
    let b : Squares initial r.1 r.0 =
      Squares-trans initial (at_start cfg) r.0 [] r.1 (at_start-Squares cfg)
        (open_log_file-Squares a.fopen_ok (at_start cfg)) in
    let i = logged-IsIdle a.fopen_ok cfg v in
    elim (Bool-cases r.2) [
      | inl fine ↦
          let m = bump_memlock_rlimit a.rlimit_ok r.0 in
          let raised : Squares initial (r.1 ++ m.1) r.0 =
            Squares-trans initial r.0 r.0 r.1 m.1 b (record {
              balanced = bump_memlock_rlimit-Balanced a.rlimit_ok r.0;
              files = bump_memlock_rlimit-Files a.rlimit_ok r.0;
            }) in
          rw fine (start_services-Outcome a r.0 (r.1 ++ m.1) raised i)
      | inr wrong ↦ rw wrong (
          Squares-Gone r.1 r.0 b
            (λ x.
              logged-holds a.fopen_ok cfg x i (open_log_file_fails a.fopen_ok (at_start cfg) wrong))
            i.server)
    ]

start_daemon-Outcome :
    (a : Answers) (cfg : AppConfig) → IsValid cfg → Outcome (start_daemon a (at_start cfg))
unfolding start_daemon
start_daemon-Outcome a cfg v =
    if_both Outcome (not (cfg.daemon_mode == 0) && not a.daemon_ok) (at_start-Gone cfg)
      (start_log-Outcome a cfg v)

-- What the options can set.
abbrev IsCli : Cli → Type 0
IsCli c = (c.cli_daemon ≡ none) ⊎ (c.cli_daemon ≡ some 1)

abbrev IsParsed : Parsed → Type 0
IsParsed (options c) = IsCli c
IsParsed (usage status) = Unit {0}

parse_options-IsParsed : (c : Cli) (os : List Opt) → IsCli c → IsParsed (parse_options c os)
unfolding parse_options
parse_options-IsParsed c [] h = h
parse_options-IsParsed c (opt_c arg ∷ os) h = parse_options-IsParsed _ os h
parse_options-IsParsed c (opt_i arg ∷ os) h = parse_options-IsParsed _ os h
parse_options-IsParsed c (opt_d ∷ os) h = parse_options-IsParsed _ os (inr refl)
parse_options-IsParsed c (opt_h ∷ os) h = tt
parse_options-IsParsed c (unknown ∷ os) h = tt

override_ifname-IsValid :
    (cfg : AppConfig) (name : Bytes) → IsValid cfg → IsValid (override_ifname cfg name)
unfolding override_ifname
override_ifname-IsValid cfg [] v = v
override_ifname-IsValid cfg (c ∷ cs) v = ground (arith, length-take 15 (c ∷ cs))

override-IsValid : (cfg : AppConfig) (c : Cli) → IsCli c → IsValid cfg → IsValid (override cfg c)
unfolding override
override-IsValid cfg c d v = let w = override_ifname-IsValid cfg c.cli_ifname v in ground arith

start_config-Outcome :
    (a : Answers) (c : Cli) (r : Loaded) → IsCli c → IsValid r.0 → Outcome (start_config a c r)
unfolding start_config
start_config-Outcome a c (cfg, some e) h v = at_start-Gone cfg
start_config-Outcome a c (cfg, none) h v =
    start_daemon-Outcome a (override cfg c) (override-IsValid cfg c h v)

start_parsed-Outcome : (a : Answers) (p : Parsed) → IsParsed p → Outcome (start_parsed a p)
unfolding start_parsed initial
start_parsed-Outcome a (usage status) h = at_start-Gone config_defaults
start_parsed-Outcome a (options c) h =
    start_config-Outcome a c (load_config_file (a.files c.config_path) config_defaults) h
      (load_config_file-IsValid (a.files c.config_path) config_defaults config_defaults-IsValid)

-- Whatever the options, the configuration file and the answers of the system: either the program
-- ends before its loop, or the loop begins with the program attached to an interface that was found,
-- a ring buffer, a listening socket whose file is at its path, and a valid configuration, and every
-- resource that was acquired is held or was given back, exactly once. A program that ends holds no
-- descriptor, ring buffer, skeleton or log, has given each back that it acquired, leaves no file of its
-- socket, and has asked the kernel to detach the program just where and how it was attached, once:
-- it is still attached only if the kernel refused.
pub start-Outcome : (a : Answers) (args : List Opt) → Outcome (start a args)
unfolding start
start-Outcome a args =
    start_parsed-Outcome a (parse_options cli_defaults args)
      (parse_options-IsParsed cli_defaults args (inl refl))
