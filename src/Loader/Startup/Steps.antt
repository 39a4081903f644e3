-- ===== src/Loader/Startup/Steps.antt =====
-- What each step of the start acquires, sets and leaves alone.
use ebpf_nids.Prelude.{◌<◌, ◌≡◌, ◌≢◌, refl, Bool, true, false, none, arith}
use ebpf_nids.Loader.System.{State, open_log_file}
use ebpf_nids.Loader.System.Ledger.{
  log, ring, skeleton, program, descriptor, gained, lost, account, Balanced,
}
use ebpf_nids.Loader.System.Release.{IsAttachedWell}
use ebpf_nids.Loader.Startup.{
  SocketAnswers, AttachAnswers, RingAnswers, setup_unix_server, load_and_attach_bpf,
  setup_ring_buffer, find_stats_map, bump_memlock_rlimit,
}

-- Each step balances.
pub setup_unix_server-Balanced :
    (a : SocketAnswers) (s : State)
    → s.server_fd ≡ none
    → Balanced s (setup_unix_server a s).1 (setup_unix_server a s).0
unfolding setup_unix_server account gained lost
setup_unix_server-Balanced a s h (descriptor fd) = ground arith
setup_unix_server-Balanced a s h log = ground arith
setup_unix_server-Balanced a s h ring = ground arith
setup_unix_server-Balanced a s h skeleton = ground arith
setup_unix_server-Balanced a s h (program i mode) = ground arith

pub load_and_attach_bpf-Balanced :
    (a : AttachAnswers) (s : State)
    → s.skel ≡ false
    → s.xdp_attached ≡ false
    → Balanced s (load_and_attach_bpf a s).1 (load_and_attach_bpf a s).0
unfolding load_and_attach_bpf account gained lost
load_and_attach_bpf-Balanced a s h k (descriptor fd) = ground arith
load_and_attach_bpf-Balanced a s h k log = ground arith
load_and_attach_bpf-Balanced a s h k ring = ground arith
load_and_attach_bpf-Balanced a s h k skeleton = ground arith
load_and_attach_bpf-Balanced a s h k (program i mode) = ground arith

pub setup_ring_buffer-Balanced :
    (a : RingAnswers) (s : State)
    → s.rb ≡ false
    → Balanced s (setup_ring_buffer a s).1 (setup_ring_buffer a s).0
unfolding setup_ring_buffer account gained lost
setup_ring_buffer-Balanced a s h (descriptor fd) = ground arith
setup_ring_buffer-Balanced a s h log = ground arith
setup_ring_buffer-Balanced a s h ring = ground arith
setup_ring_buffer-Balanced a s h skeleton = ground arith
setup_ring_buffer-Balanced a s h (program i mode) = ground arith

pub open_log_file-Balanced :
    (ok : Bool) (s : State) → Balanced s (open_log_file ok s).1 (open_log_file ok s).0
unfolding open_log_file account gained lost
open_log_file-Balanced ok s (descriptor fd) = ground arith
open_log_file-Balanced ok s log = ground arith
open_log_file-Balanced ok s ring = ground arith
open_log_file-Balanced ok s skeleton = ground arith
open_log_file-Balanced ok s (program i mode) = ground arith

-- What each step leaves alone, and what it sets.
-- Raising the limit acquires nothing.
pub bump_memlock_rlimit-Balanced :
    (ok : Bool) (s : State) → Balanced s (bump_memlock_rlimit ok s).1 (bump_memlock_rlimit ok s).0
unfolding bump_memlock_rlimit gained lost
bump_memlock_rlimit-Balanced ok s (descriptor fd) = omega arith
bump_memlock_rlimit-Balanced ok s log = omega arith
bump_memlock_rlimit-Balanced ok s ring = omega arith
bump_memlock_rlimit-Balanced ok s skeleton = omega arith
bump_memlock_rlimit-Balanced ok s (program i mode) = omega arith

pub setup_unix_server-rest :
    (a : SocketAnswers) (s : State)
    → let t = (setup_unix_server a s).0 in
      (t.skel ≡ s.skel) × (t.xdp_attached ≡ s.xdp_attached) × (t.rb ≡ s.rb) × (t.cfg ≡ s.cfg)
unfolding setup_unix_server
setup_unix_server-rest a s = ground arith

pub setup_unix_server-serves :
    (a : SocketAnswers) (s : State)
    → (setup_unix_server a s).2 ≡ true
    → (setup_unix_server a s).0.server_fd ≢ none
unfolding setup_unix_server
setup_unix_server-serves a s h e = ground arith

pub load_and_attach_bpf-rest :
    (a : AttachAnswers) (s : State)
    → let t = (load_and_attach_bpf a s).0 in
      (t.rb ≡ s.rb) × (t.cfg ≡ s.cfg) × (t.server_fd ≡ s.server_fd)
unfolding load_and_attach_bpf
load_and_attach_bpf-rest a s = ground arith

pub load_and_attach_bpf-attaches :
    (a : AttachAnswers) (s : State)
    → (load_and_attach_bpf a s).2 ≡ true
    → let t = (load_and_attach_bpf a s).0 in
      (t.skel ≡ true) × (t.xdp_attached ≡ true) × (0 < t.ifindex)
unfolding load_and_attach_bpf
load_and_attach_bpf-attaches a s h = ground arith

pub load_and_attach_bpf-IsAttachedWell :
    (a : AttachAnswers) (s : State)
    → s.xdp_attached ≡ false
    → IsAttachedWell (load_and_attach_bpf a s).0
unfolding load_and_attach_bpf
load_and_attach_bpf-IsAttachedWell a s h k = ground arith

pub setup_ring_buffer-rest :
    (a : RingAnswers) (s : State)
    → let t = (setup_ring_buffer a s).0 in
      (t.skel ≡ s.skel)
      × (t.xdp_attached ≡ s.xdp_attached)
      × (t.ifindex ≡ s.ifindex)
      × (t.cfg ≡ s.cfg)
      × (t.server_fd ≡ s.server_fd)
unfolding setup_ring_buffer
setup_ring_buffer-rest a s = ground arith

pub setup_ring_buffer-opens :
    (a : RingAnswers) (s : State)
    → (setup_ring_buffer a s).2 ≡ true
    → (setup_ring_buffer a s).0.rb ≡ true
unfolding setup_ring_buffer
setup_ring_buffer-opens a s h = ground arith

pub find_stats_map_lem :
    (ok : Bool) (s : State) → Balanced s (find_stats_map ok s).1 (find_stats_map ok s).0
unfolding find_stats_map gained lost
find_stats_map_lem ok s r = refl

pub open_log_file-rest :
    (ok : Bool) (s : State)
    → let t = (open_log_file ok s).0 in
      (t.cfg ≡ s.cfg)
      × (t.publisher ≡ s.publisher)
      × (t.server_fd ≡ s.server_fd)
      × (t.skel ≡ s.skel)
      × (t.xdp_attached ≡ s.xdp_attached)
      × (t.ifindex ≡ s.ifindex)
      × (t.rb ≡ s.rb)
unfolding open_log_file
open_log_file-rest ok s = ground arith

pub open_log_file_fails :
    (ok : Bool) (s : State) → (open_log_file ok s).2 ≡ false → (open_log_file ok s).0.log_fp ≡ false
unfolding open_log_file
open_log_file_fails ok s h = ground arith
