-- ===== src/Loader/Startup.antt =====
-- `main` of project_submit/ebpf_control/src/loader.c up to its loop: the options, the
-- configuration, and `setup_unix_server`, `load_and_attach_bpf` and `setup_ring_buffer`. What the
-- system answers is an argument.
pub mod Steps
pub mod Blank
pub mod Files
pub mod Safe
pub mod Nonblocking
use ebpf_nids.Prelude.{
  ℕ, Bool, true, false, not, ◌&&◌, Option, none, some, List, [], ◌∷◌, ◌++◌, ◌==◌, if◌then◌else◌,
}
use ebpf_nids.Prelude.Int.{ℤ}
use ebpf_nids.Prelude.Text.{Bytes, codes}
use ebpf_nids.Loader.Text.{copy}
use ebpf_nids.Loader.Config.{
  AppConfig, Loaded, File, config_defaults, load_config_file, ifname_size,
}
use ebpf_nids.Loader.Clients.{init_clients}
use ebpf_nids.Loader.System.{
  State, Effect, open_skeleton, create_ring, open_fd, attach_xdp, close_fd, unlink_path, bind_path,
  open_log_file, cleanup, set_flags, set_nonblock, allow_all, raise_memlock,
}

-- A step of the start: the state after it, its calls, and whether it returned 0.
abbrev pub Step : Type 0
Step = State × List Effect × Bool

-- What `socket` and F_GETFL return, and whether `bind` and `listen` succeed.
pub record SocketAnswers : Type 0 where
  pub socket : Option ℕ
  pub flags : ℤ
  pub bind_ok : Bool
  pub listen_ok : Bool

bind_and_listen : SocketAnswers → State → Option ℕ → Step
bind_and_listen a s none = (record s { server_fd = none }, [], false)
bind_and_listen a s (some fd) =
    let path = s.cfg.socket_path in
    let opened = open_fd fd ∷ set_flags fd (set_nonblock a.flags) ∷ unlink_path path ∷ [] in
    let bound = opened ++ (bind_path path ∷ allow_all path ∷ []) in
    if not a.bind_ok
    then (record s { server_fd = none }, opened ++ (close_fd fd ∷ []), false)
    else if not a.listen_ok
    then (record s { server_fd = none }, bound ++ (close_fd fd ∷ unlink_path path ∷ []), false)
    else (record s { server_fd = some fd }, bound, true)

-- `server_fd = setup_unix_server(cfg.socket_path)`
unfoldable pub setup_unix_server : SocketAnswers → State → Step
unfolding bind_and_listen set_nonblock
setup_unix_server a s = bind_and_listen a s a.socket

-- What the BPF library answers; `index` is 0 where the interface is not found.
pub record AttachAnswers : Type 0 where
  pub open_ok : Bool
  pub load_ok : Bool
  pub index : ℕ
  pub has_prog : Bool
  pub prog_fd_ok : Bool
  pub attach_ok : Bool

unfoldable pub load_and_attach_bpf : AttachAnswers → State → Step
load_and_attach_bpf a s =
    let opened = record s { skel = true } in
    let indexed = record opened { ifindex = a.index } in
    if not a.open_ok
    then (record s { skel = false }, [], false)
    else if not a.load_ok
    then (opened, open_skeleton ∷ [], false)
    else if a.index == 0
    then (indexed, open_skeleton ∷ [], false)
    else if not a.has_prog
    then (indexed, open_skeleton ∷ [], false)
    else if not a.prog_fd_ok
    then (indexed, open_skeleton ∷ [], false)
    else if not a.attach_ok
    then (indexed, open_skeleton ∷ [], false)
    else (
      record indexed { xdp_attached = true },
      open_skeleton ∷ attach_xdp a.index s.cfg.xdp_flags ∷ [],
      true,
    )

pub record RingAnswers : Type 0 where
  pub alert_fd_ok : Bool
  pub new_ok : Bool

unfoldable pub setup_ring_buffer : RingAnswers → State → Step
setup_ring_buffer a s =
    if not a.alert_fd_ok
    then (s, [], false)
    else if not a.new_ok
    then (record s { rb = false }, [], false)
    else (record s { rb = true }, create_ring ∷ [], true)

-- `stats_fd = bpf_map__fd(skel->maps.flow_stats)`
unfoldable pub find_stats_map : Bool → State → Step
find_stats_map fd_ok s = (s, [], fd_ok)

-- An option, as `getopt` returns it; `unknown` is any other.
pub data Opt : Type 0 where
  opt_c opt_i : Bytes → Opt
  opt_d opt_h unknown : Opt

-- `cli_daemon` is `none` while it is -1.
pub record Cli : Type 0 where
  pub config_path : Bytes
  pub cli_ifname : Bytes
  pub cli_daemon : Option ℕ

abbrev pub cli_defaults : Cli
cli_defaults = record {
  config_path = codes "./conf/xdp_loader.conf";
  cli_ifname = [];
  cli_daemon = none;
}

-- The options, or the status with which the program ends after its usage text.
pub data Parsed : Type 0 where
  options : Cli → Parsed
  usage : ℕ → Parsed

unfoldable pub parse_options : Cli → List Opt → Parsed
parse_options c [] = options c
parse_options c (opt_c arg ∷ os) = parse_options (record c { config_path = copy 256 arg }) os
parse_options c (opt_i arg ∷ os) = parse_options (record c { cli_ifname = copy ifname_size arg }) os
parse_options c (opt_d ∷ os) = parse_options (record c { cli_daemon = some 1 }) os
parse_options c (opt_h ∷ os) = usage 0
parse_options c (unknown ∷ os) = usage 1

override_ifname : AppConfig → Bytes → AppConfig
override_ifname cfg [] = cfg
override_ifname cfg (c ∷ cs) = record cfg { ifname = copy ifname_size (c ∷ cs) }

override_daemon : AppConfig → Option ℕ → AppConfig
override_daemon cfg none = cfg
override_daemon cfg (some d) = record cfg { daemon_mode = d }

-- The configuration with what the command line says on top.
unfoldable pub override : AppConfig → Cli → AppConfig
unfolding override_ifname override_daemon
override cfg c = override_daemon (override_ifname cfg c.cli_ifname) c.cli_daemon

-- The zeroed globals, with the default configuration and `init_clients`.
unfoldable pub initial : State
initial = record {
  cfg = config_defaults;
  log_fp = false;
  skel = false;
  rb = false;
  ifindex = 0;
  xdp_attached = false;
  server_fd = none;
  publisher = record { slots = init_clients; closed = []; streams = []; broadcasts = 0 };
  cache_head = [];
  exiting = false;
  reload_requested = false;
}

-- `detach_ok` is the kernel's answer to the one request of a run to detach the program.
pub record Answers : Type 0 where
  pub files : Bytes → File
  pub daemon_ok : Bool
  pub fopen_ok : Bool
  pub rlimit_ok : Bool
  pub socket : SocketAnswers
  pub attach : AttachAnswers
  pub ring : RingAnswers
  pub stats_fd_ok : Bool
  pub detach_ok : Bool

-- The program has ended with a status, or reaches its loop; with the calls made.
pub data Started : Type 0 where
  exited : ℕ → State → List Effect → Started
  running : State → List Effect → Started

-- `if (step() != 0) { cleanup(); return 1; }`
unfoldable pub or_cleanup : Bool → Step → List Effect → (State → List Effect → Started) → Started
or_cleanup detach_ok r done next =
    let end = cleanup detach_ok r.0 in
    if r.2 then next r.0 (done ++ r.1) else exited 1 end.0 ((done ++ r.1) ++ end.1)

unfoldable pub start_services : Answers → State → List Effect → Started
start_services a s done = or_cleanup a.detach_ok (setup_unix_server a.socket s) done λ s done.
    or_cleanup a.detach_ok (load_and_attach_bpf a.attach s) done λ s done.
      or_cleanup a.detach_ok (setup_ring_buffer a.ring s) done
        λ s done. or_cleanup a.detach_ok (find_stats_map a.stats_fd_ok s) done running

-- `bump_memlock_rlimit`, by whether `setrlimit` succeeds.
unfoldable pub bump_memlock_rlimit : Bool → State → Step
bump_memlock_rlimit rlimit_ok s = (s, raise_memlock ∷ [], rlimit_ok)

-- `main` does not look at what `bump_memlock_rlimit` returns.
unfoldable pub start_log : Answers → State → Started
unfolding bump_memlock_rlimit
start_log a s =
    let r = open_log_file a.fopen_ok s in
    let m = bump_memlock_rlimit a.rlimit_ok r.0 in
    if r.2 then start_services a m.0 (r.1 ++ m.1) else exited 1 r.0 r.1

unfoldable pub start_daemon : Answers → State → Started
start_daemon a s =
    if not (s.cfg.daemon_mode == 0) && not a.daemon_ok then exited 1 s [] else start_log a s

start_config : Answers → Cli → Loaded → Started
start_config a c (cfg, some e) = exited 1 (record initial { cfg = cfg }) []
start_config a c (cfg, none) = start_daemon a (record initial { cfg = override cfg c })

start_parsed : Answers → Parsed → Started
start_parsed a (usage status) = exited status initial []
start_parsed a (options c) =
    start_config a c (load_config_file (a.files c.config_path) config_defaults)

-- `main` up to `while (!exiting)`.
unfoldable pub start : Answers → List Opt → Started
unfolding start_parsed start_config
start a args = start_parsed a (parse_options cli_defaults args)
