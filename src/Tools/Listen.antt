-- ===== src/Tools/Listen.antt =====
-- examples/c/rb_listen.c and examples/c/ebpf/test_ringbuf.c, which print the alerts of the ring
-- buffer as they come. Both have the same `handle_alert`.
pub mod Releases
use ebpf_nids.Prelude.{
  ℕ, zero, suc, ◌/◌, ◌%◌, Bool, true, false, not, Option, none, some, List, [], ◌∷◌, if◌then◌else◌,
}
use ebpf_nids.Prelude.Int.{ℤ, pos, negsuc}
use ebpf_nids.Prelude.Text.{Bytes}
use ebpf_nids.Kernel.{AlertEvent}
use ebpf_nids.Loader.Text.{atoi}
use ebpf_nids.Tools.Ledger.{skeleton, ring, links, map_fd, Run}
use ebpf_nids.Tools.Polling.{Round, is_negative}

-- The arguments of the format string.
pub record AlertLine : Type 0 where
  pub ip : List ℕ
  pub alert_type : ℕ
  pub timestamp : ℕ

-- `handle_alert`: the bytes of `src_ip` as they lie in memory.
unfoldable pub handle_alert : AlertEvent → AlertLine
handle_alert evt = record {
  ip =
      evt.src_ip % 256
      ∷ evt.src_ip / 0x100 % 256
      ∷ evt.src_ip / 0x1_0000 % 256
      ∷ evt.src_ip / 0x100_0000 % 256
      ∷ [];
  alert_type = evt.alert_type;
  timestamp = evt.timestamp;
}

-- What the kernel and the library answer: the descriptor of the map with a number, and whether the
-- ring buffer, the program and its attachment succeed. `attach` is what the skeleton's function
-- returns.
pub record Answers : Type 0 where
  pub map_get_fd_by_id : ℤ → ℤ
  pub ring_buffer_new : Bool
  pub open_and_load : Bool
  pub attach : ℤ

-- The loop of rb_listen.c: whether the rounds bring it to its end.
unfoldable pub listen_loop : List Round → Bool
listen_loop [] = false
listen_loop (r ∷ rs) =
    let rest = listen_loop rs in
    if r.stopped then true else if is_negative r.polled then true else rest

-- The loop of test_ringbuf.c, which does not look at what the poll returns.
unfoldable pub ring_loop : List Round → Bool
ring_loop [] = false
ring_loop (r ∷ rs) = let rest = ring_loop rs in if r.stopped then true else rest

abbrev ended : ℤ → Run
ended status = record { status = status; acquired = []; released = [] }

-- `main` of rb_listen.c with its descriptor.
unfoldable pub listen_at : Answers → List Round → ℕ → Option Run
unfolding listen_loop
listen_at w rounds fd =
    if not w.ring_buffer_new
    then some (record { status = pos 1; acquired = map_fd fd ∷ []; released = [] })
    else if listen_loop rounds
    then some (record { status = pos 0; acquired = map_fd fd ∷ ring ∷ []; released = ring ∷ [] })
    else none

unfoldable pub listen_opened : Answers → List Round → ℤ → Option Run
unfolding listen_at
listen_opened w rounds (pos fd) = listen_at w rounds fd
listen_opened w rounds (negsuc e) = some (ended (pos 1))

-- `main` of rb_listen.c, by the arguments behind the program's name; `none` while it polls.
unfoldable pub listen_main : Answers → List Round → List Bytes → Option Run
unfolding listen_opened
listen_main w rounds (map_id ∷ []) = listen_opened w rounds (w.map_get_fd_by_id (atoi map_id))
listen_main w rounds _ = some (ended (pos 1))

-- `main` of test_ringbuf.c behind the attachment.
unfoldable pub ring_attached : Answers → List Round → Option Run
unfolding ring_loop
ring_attached w rounds =
    if not w.ring_buffer_new
    then some (record {
      status = pos 1;
      acquired = skeleton ∷ links ∷ [];
      released = links ∷ skeleton ∷ [];
    })
    else if ring_loop rounds
    then some (record {
      status = pos 0;
      acquired = skeleton ∷ links ∷ ring ∷ [];
      released = ring ∷ links ∷ skeleton ∷ [];
    })
    else none

is_zero : ℤ → Bool
is_zero (pos zero) = true
is_zero (pos (suc n)) = false
is_zero (negsuc n) = false

-- `main` of test_ringbuf.c. The number of the interface, which is set on the program after it has
-- been loaded and is not looked at, is left out.
unfoldable pub ring_main : Answers → List Round → List Bytes → Option Run
unfolding ring_attached is_zero
ring_main w rounds [] = some (ended (pos 1))
ring_main w rounds (ifname ∷ args) =
    if not w.open_and_load
    then some (ended (pos 1))
    else if not (is_zero w.attach)
    then some (record { status = pos 1; acquired = skeleton ∷ []; released = skeleton ∷ [] })
    else ring_attached w rounds
