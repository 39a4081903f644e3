-- ===== src/Tools/Attach.antt =====
-- `main` of examples/c/xdp_blacklist.c, which keeps the blacklist filter attached to an interface
-- until it is signalled, and that of examples/c/xdp_parse_ip.c.
use ebpf_nids.Prelude.{ℕ, refl, Bool, not, List, [], ◌∷◌, arith, ◌==◌, if◌then◌else◌, if_both}
use ebpf_nids.Prelude.Int.{ℤ, pos, negsuc}
use ebpf_nids.Prelude.Text.{Bytes}
use ebpf_nids.Tools.Ledger.{skeleton, xdp_hook, Run, count, Balanced}

-- What the library and the kernel answer: the number of an interface, 0 if there is none, whether
-- the program loads, and what `bpf_xdp_attach` returns.
pub record Answers : Type 0 where
  pub if_nametoindex : Bytes → ℕ
  pub open_and_load : Bool
  pub xdp_attach : ℤ

abbrev is_zero : ℤ → Bool
is_zero (pos n) = n == 0
is_zero (negsuc n) = Bool.false

unfoldable pub attach_loaded : Answers → ℕ → Run
attach_loaded w ifindex =
    if not (is_zero w.xdp_attach)
    then record { status = w.xdp_attach; acquired = skeleton ∷ []; released = skeleton ∷ [] }
    else record {
      status = w.xdp_attach;
      acquired = skeleton ∷ xdp_hook ifindex ∷ [];
      released = xdp_hook ifindex ∷ skeleton ∷ [];
    }

abbrev failed : ℤ → Run
failed status = record { status = status; acquired = []; released = [] }

-- The arguments are those behind the program's name. The wait for a signal is left out: a run ends
-- by one.
unfoldable pub attach_main : Answers → List Bytes → Run
unfolding attach_loaded
attach_main w [] = failed (pos 1)
attach_main w (ifname ∷ args) =
    let ifindex = w.if_nametoindex ifname in
    if ifindex == 0
    then failed (pos 1)
    else if not w.open_and_load
    then failed (pos 1)
    else attach_loaded w ifindex

-- `main` of examples/c/xdp_parse_ip.c, which has the same statements.
unfoldable pub parse_ip_main : Answers → List Bytes → Run
unfolding attach_main
parse_ip_main w args = attach_main w args

attach_loaded-Balanced : (w : Answers) (ifindex : ℕ) → Balanced (attach_loaded w ifindex)
unfolding attach_loaded count
attach_loaded-Balanced w ifindex =
    if_both Balanced (not (is_zero w.xdp_attach)) (λ P. omega arith) (λ P. omega arith)

-- Whatever the arguments and the answers are, the tool gives back what it acquired: the program that
-- it loaded, and the attachment to the interface that it was attached to.
pub attach_main-Balanced : (w : Answers) (args : List Bytes) → Balanced (attach_main w args)
unfolding attach_main count
attach_main-Balanced w [] = λ P. refl
attach_main-Balanced w (ifname ∷ args) =
    let ifindex = w.if_nametoindex ifname in
    if_both Balanced (ifindex == 0) (λ P. refl)
      (if_both Balanced (not w.open_and_load) (λ P. refl) (attach_loaded-Balanced w ifindex))
