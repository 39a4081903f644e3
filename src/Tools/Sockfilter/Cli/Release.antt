-- ===== src/Tools/Sockfilter/Cli/Release.antt =====
-- What `main` of examples/c/sockfilter.c gives back.
use ebpf_nids.Prelude.{
  ℕ, ◌≡◌, refl, Bool, true, not, Option, none, some, List, [], ◌∷◌, ◌++◌, arith, if_both,
  Option-cases, inl, inr,
}
use ebpf_nids.Prelude.Int.{ℤ, pos, negsuc}
use ebpf_nids.Prelude.Text.{Bytes}
use ebpf_nids.Tools.Ledger.{Resource, socket, count, count-append, Keeps, Leaves}
use ebpf_nids.Tools.Polling.{Round, polling_ends, poll_loop-Leaves}
use ebpf_nids.Tools.Sockfilter.Cli.{Answers, Opened, open_raw_sock, cleanup, watch, main_with}

-- The raw socket that is at hand.
unfoldable pub sockets : Option ℕ → List Resource
sockets none = []
sockets (some sock) = socket sock ∷ []

-- What `open_raw_sock` acquired and did not return is released.
IsOpened : Opened → Type 0
IsOpened o = (P : Resource → Bool) → count P o.acquired ≡ count P (sockets o.sock ++ o.released)

open_raw_sock-IsOpened : (w : Answers) (name : Bytes) → IsOpened (open_raw_sock w name)
unfolding IsOpened open_raw_sock count sockets
open_raw_sock-IsOpened w name = elim (Option-cases w.raw_socket) [
  | inl e ↦ rw e (λ P. refl)
  | inr (sock, e) ↦
      rw e (if_both IsOpened (not (w.binds (w.if_nametoindex name))) (λ P. refl) (λ P. refl))
]

cleanup-Keeps : (o : Opened) → IsOpened o → (err : ℤ) → Keeps (sockets o.sock) (cleanup o err)
unfolding IsOpened cleanup count
cleanup-Keeps o h err = λ P. omega (arith, h P, count-append P)

watch_sock-Keeps :
    (w : Answers) (rounds : List Round) (sock : Option ℕ) (acquired released : List Resource)
    → let o : Opened = record { sock = sock; acquired = acquired; released = released } in
      IsOpened o → polling_ends rounds ≡ true → Leaves (Keeps (sockets sock)) (watch w rounds o)
unfolding watch Leaves
watch_sock-Keeps w rounds none acquired released h e = cleanup-Keeps _ h (negsuc 1)
watch_sock-Keeps w rounds (some sock) acquired released h e =
    let o : Opened = record { sock = some sock; acquired = acquired; released = released } in
    let Kept = Keeps (sockets (some sock)) in
    if_both (Leaves Kept) (not w.setsockopt) (cleanup-Keeps o h (negsuc 2))
      (poll_loop-Leaves Kept (cleanup o) (cleanup-Keeps o h) (pos 0) rounds e)

-- Once the program and the ring buffer are there, and a signal comes or a poll fails, the tool ends
-- and has given back the program, the ring buffer and a socket that it could not bind, but, on every
-- path, not the raw socket that `open_raw_sock` returned.
pub main_with-Keeps :
    (w : Answers) (rounds : List Round) (env : Bytes)
    → w.open_and_load ≡ true
    → w.ring_buffer_new ≡ true
    → polling_ends rounds ≡ true
    → Leaves (Keeps (sockets (open_raw_sock w env).sock)) (main_with w rounds env)
unfolding main_with
main_with-Keeps w rounds env opened created e =
    let o = open_raw_sock w env in
    rw opened (
      rw created
        (watch_sock-Keeps w rounds o.sock o.acquired o.released (open_raw_sock-IsOpened w env) e))
