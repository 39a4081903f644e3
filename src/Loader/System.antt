-- ===== src/Loader/System.antt =====
-- The process that project_submit/ebpf_control/src/loader.c is: its global variables, what it asks
-- the system to do, `sig_handler`, `open_log_file` and `cleanup`.
pub mod Ledger
pub mod Release
pub mod Files
pub mod Blocking
use ebpf_nids.Prelude.{
  ℕ, ◌*◌, ◌/◌, Bool, true, false, ◌&&◌, ◌||◌, Option, none, some, List, [], ◌∷◌, ◌++◌, ltb,
  if◌then◌else◌,
}
use Prim.Native.Nat.{bit_or}
use ebpf_nids.Prelude.Int.{ℤ, pos, negsuc}
use ebpf_nids.Prelude.Text.{Bytes, codes, str_eq}
use ebpf_nids.Loader.Config.{AppConfig}
use ebpf_nids.Loader.Clients.{Slots, close_client}
use ebpf_nids.Loader.Publish.{Publisher}
use ebpf_nids.Loader.Rates.{IpCache}

-- The global variables. A pointer is a flag: not null. `server_fd` is `none` for -1.
pub record State : Type 0 where
  pub cfg : AppConfig
  pub log_fp : Bool
  pub skel : Bool
  pub rb : Bool
  pub ifindex : ℕ
  pub xdp_attached : Bool
  pub server_fd : Option ℕ
  pub publisher : Publisher
  pub cache_head : List IpCache
  pub exiting : Bool
  pub reload_requested : Bool

-- The calls to the system; messages to the log are left out. `set_flags` is `set_nonblock` of a
-- descriptor, with the flags that it sets, if it does; `allow_all` is `chmod` with 0666. `bind_path`
-- is a call of `bind` that succeeds and makes the socket's file. `detach_xdp` has the interface, the
-- flags, and whether the kernel detaches the program.
pub data Effect : Type 0 where
  open_log : Bytes → Effect
  open_skeleton create_ring : Effect
  open_fd : ℕ → Effect
  close_log free_ring destroy_skeleton : Effect
  attach_xdp : ℕ → ℕ → Effect
  detach_xdp : ℕ → ℕ → Bool → Effect
  close_fd : ℕ → Effect
  set_flags : ℕ → Option ℕ → Effect
  bind_path allow_all : Bytes → Effect
  raise_memlock : Effect
  unlink_path : Bytes → Effect
  free_entry : IpCache → Effect

pub data Signal : Type 0 where
  sighup sigint sigterm : Signal

-- `set_nonblock`, by what F_GETFL returns: the flags with `O_NONBLOCK`, unless there is an error.
unfoldable pub set_nonblock : ℤ → Option ℕ
set_nonblock (pos flags) = some (bit_or flags 0x800)
set_nonblock (negsuc e) = none

unfoldable pub sig_handler : State → Signal → State
sig_handler s sighup = record s { reload_requested = true }
sig_handler s _ = record s { exiting = true }

-- `open_log_file`: the state after it, its calls, and whether it returns 0. `fopen_ok` is whether
-- the file opens.
open_new_log : Bool → State → State × List Effect × Bool
open_new_log fopen_ok s =
    if str_eq s.cfg.log_file (codes "") || str_eq s.cfg.log_file (codes "syslog")
    then (s, [], true)
    else if fopen_ok
    then (record s { log_fp = true }, open_log s.cfg.log_file ∷ [], true)
    else (s, [], false)

unfoldable pub open_log_file : Bool → State → State × List Effect × Bool
unfolding open_new_log
open_log_file fopen_ok s =
    let r = open_new_log fopen_ok (record s { log_fp = false }) in
    (r.0, (if s.log_fp then close_log ∷ [] else []) ++ r.1, r.2)

-- `cfg.xdp_flags & ~XDP_FLAGS_UPDATE_IF_NOEXIST`
abbrev pub detach_flags : ℕ → ℕ
detach_flags flags = flags / 2 * 2

close_slots : Slots → Slots × List Effect
unfolding close_client
close_slots [] = ([], [])
close_slots (none ∷ fds) = let r = close_slots fds in (none ∷ r.0, r.1)
close_slots (some fd ∷ fds) = let r = close_slots fds in (none ∷ r.0, close_fd fd ∷ r.1)

free_cache : List IpCache → List Effect
free_cache [] = []
free_cache (p ∷ ps) = free_entry p ∷ free_cache ps

close_server : Option ℕ → Bytes → List Effect
close_server none path = []
close_server (some fd) path = close_fd fd ∷ unlink_path path ∷ []

-- `cleanup`, by whether `bpf_set_link_xdp_fd` detaches the program; `xdp_attached` is cleared either
-- way.
unfoldable pub cleanup : Bool → State → State × List Effect
unfolding close_slots free_cache close_server
cleanup detach_ok s =
    let clients = close_slots s.publisher.slots in
    let detach = s.xdp_attached && ltb 0 s.ifindex in
    (
      record s {
        rb = false;
        xdp_attached = if detach then false else s.xdp_attached;
        skel = false;
        publisher = record s.publisher { slots = clients.0 };
        server_fd = none;
        cache_head = [];
        log_fp = false;
      },
      (if s.rb then free_ring ∷ [] else [])
          ++ ((if detach
                then detach_xdp s.ifindex (detach_flags s.cfg.xdp_flags) detach_ok ∷ []
                else [])
              ++ ((if s.skel then destroy_skeleton ∷ [] else [])
                  ++ (clients.1
                      ++ (close_server s.server_fd s.cfg.socket_path
                          ++ (free_cache s.cache_head
                              ++ (if s.log_fp then close_log ∷ [] else [])))))),
    )
