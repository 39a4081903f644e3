-- ===== src/Tools/Listen/Releases.antt =====
-- What examples/c/rb_listen.c and examples/c/ebpf/test_ringbuf.c give back.
use ebpf_nids.Prelude.{ℕ, ◌≡◌, refl, Bool, true, false, not, ◌||◌, List, [], ◌∷◌, arith, if_both}
use ebpf_nids.Prelude.Int.{pos}
use ebpf_nids.Prelude.Text.{Bytes}
use ebpf_nids.Loader.Text.{atoi}
use ebpf_nids.Tools.Ledger.{map_fd, count, Balanced, Keeps, Leaves}
use ebpf_nids.Tools.Polling.{Round, polling_ends}
use ebpf_nids.Tools.Listen.{
  Answers, listen_loop, listen_at, listen_opened, listen_main, ring_loop, is_zero, ring_attached,
  ring_main,
}

-- A signal comes.
unfoldable pub signal_comes : List Round → Bool
signal_comes [] = false
signal_comes (r ∷ rs) = r.stopped || signal_comes rs

signal_comes-polling_ends : (rs : List Round) → signal_comes rs ≡ true → polling_ends rs ≡ true
unfolding signal_comes polling_ends
signal_comes-polling_ends [] e = absurd (ground (arith, e))
signal_comes-polling_ends (r ∷ rs) e = ground (arith, e, signal_comes-polling_ends rs)

listen_loop-polling_ends : (rs : List Round) → listen_loop rs ≡ polling_ends rs
unfolding listen_loop polling_ends
listen_loop-polling_ends [] = refl
listen_loop-polling_ends (r ∷ rs) = ground (arith, listen_loop-polling_ends rs)

ring_loop-signal_comes : (rs : List Round) → ring_loop rs ≡ signal_comes rs
unfolding ring_loop signal_comes
ring_loop-signal_comes [] = refl
ring_loop-signal_comes (r ∷ rs) = ground (arith, ring_loop-signal_comes rs)

listen_at-Keeps :
    (w : Answers) (rounds : List Round) (fd : ℕ)
    → polling_ends rounds ≡ true
    → Leaves (Keeps (map_fd fd ∷ [])) (listen_at w rounds fd)
unfolding listen_at Leaves count
listen_at-Keeps w rounds fd e = rw (listen_loop-polling_ends rounds) (
    rw e (
      if_both (Leaves (Keeps (map_fd fd ∷ []))) (not w.ring_buffer_new) (λ P. omega arith)
        (λ P. omega arith)))

ring_attached-Balanced :
    (w : Answers) (rounds : List Round)
    → signal_comes rounds ≡ true
    → Leaves Balanced (ring_attached w rounds)
unfolding ring_attached Leaves count
ring_attached-Balanced w rounds e =
    rw (ring_loop-signal_comes rounds) (
      rw e
        (if_both (Leaves Balanced) (not w.ring_buffer_new) (λ P. omega arith) (λ P. omega arith)))

ring_main-Balanced :
    (w : Answers) (rounds : List Round) (args : List Bytes)
    → signal_comes rounds ≡ true
    → Leaves Balanced (ring_main w rounds args)
unfolding ring_main Leaves count
ring_main-Balanced w rounds [] e = λ P. refl
ring_main-Balanced w rounds (ifname ∷ args) e =
    if_both (Leaves Balanced) (not w.open_and_load) (λ P. refl)
      (if_both (Leaves Balanced) (not (is_zero w.attach)) (λ P. omega arith)
        (ring_attached-Balanced w rounds e))

-- When a signal comes, both tools end, whatever the kernel and the library answer. test_ringbuf.c
-- gives back all that it acquired, on every path and for all arguments. rb_listen.c, called with the
-- number of a map that the kernel opens as `fd`, gives back the ring buffer, but never that
-- descriptor.
pub listeners_release :
    (w : Answers) (rounds : List Round) (args : List Bytes) (map_id : Bytes) (fd : ℕ)
    → signal_comes rounds ≡ true
    → w.map_get_fd_by_id (atoi map_id) ≡ pos fd
    → Leaves Balanced (ring_main w rounds args)
      × Leaves (Keeps (map_fd fd ∷ [])) (listen_main w rounds (map_id ∷ []))
unfolding listen_main listen_opened
listeners_release w rounds args map_id fd e opened = (
  ring_main-Balanced w rounds args e,
  rw opened (listen_at-Keeps w rounds fd (signal_comes-polling_ends rounds e)),
)
