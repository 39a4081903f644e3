-- ===== src/Loader/Startup/Files.antt =====
-- Where the socket's file is through the start of project_submit/ebpf_control/src/loader.c.
use ebpf_nids.Prelude.{◌≡◌, refl, ap, Bool, none, arith}
use ebpf_nids.Loader.System.{State, open_log_file}
use ebpf_nids.Loader.System.Files.{open_log_file-AllPlain}
use ebpf_nids.Loader.Startup.Steps.{open_log_file-Balanced, open_log_file-rest}
use ebpf_nids.Loader.System.Ledger.{bound, serves, Files, Files-AllPlain, Squares}
use ebpf_nids.Loader.Startup.{
  SocketAnswers, AttachAnswers, RingAnswers, bind_and_listen, setup_unix_server,
  load_and_attach_bpf, setup_ring_buffer, find_stats_map, bump_memlock_rlimit,
}

pub setup_unix_server-Files :
    (a : SocketAnswers) (s : State)
    → s.server_fd ≡ none
    → Files s (setup_unix_server a s).1 (setup_unix_server a s).0
unfolding setup_unix_server bind_and_listen bound serves
setup_unix_server-Files a s h p = ground (arith, h)

pub load_and_attach_bpf-Files :
    (a : AttachAnswers) (s : State)
    → Files s (load_and_attach_bpf a s).1 (load_and_attach_bpf a s).0
unfolding load_and_attach_bpf bound
load_and_attach_bpf-Files a s p = ground arith

pub setup_ring_buffer-Files :
    (a : RingAnswers) (s : State) → Files s (setup_ring_buffer a s).1 (setup_ring_buffer a s).0
unfolding setup_ring_buffer bound
setup_ring_buffer-Files a s p = ground arith

pub find_stats_map-Files :
    (ok : Bool) (s : State) → Files s (find_stats_map ok s).1 (find_stats_map ok s).0
unfolding find_stats_map bound
find_stats_map-Files ok s p = refl

pub bump_memlock_rlimit-Files :
    (ok : Bool) (s : State) → Files s (bump_memlock_rlimit ok s).1 (bump_memlock_rlimit ok s).0
unfolding bump_memlock_rlimit bound
bump_memlock_rlimit-Files ok s p = refl

pub open_log_file-Squares :
    (ok : Bool) (s : State) → Squares s (open_log_file ok s).1 (open_log_file ok s).0
open_log_file-Squares ok s =
    let r = open_log_file-rest ok s in
    record {
      balanced = open_log_file-Balanced ok s;
      files =
          Files-AllPlain s (open_log_file ok s).1 (open_log_file ok s).0
            (open_log_file-AllPlain ok s) r.2 (ap (λ c. c.socket_path) r.0);
    }
