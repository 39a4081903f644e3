-- ===== src/Loader/System/Blocking.antt =====
-- Which descriptors would make a call wait: `set_nonblock` and the descriptors of
-- project_submit/ebpf_control/src/loader.c.
use ebpf_nids.Prelude.{
  ℕ, ◌≡◌, refl, ap, ◌∙◌, Bool, true, false, ◌&&◌, Option, none, some, List, [], ◌∷◌, ◌++◌, arith,
  ltb, ◌==◌, if◌then◌else◌, if_both, ◌||◌, Bool-cases, inl, inr,
}
use Prim.Native.Nat.{bit_or}
use ebpf_nids.Prelude.Bits.{bit_at, bit_at-bit_or}
use ebpf_nids.Prelude.Int.{pos}
use ebpf_nids.Prelude.Text.{Bytes, codes, str_eq}
use ebpf_nids.Loader.Clients.{Slots}
use ebpf_nids.Loader.Rates.{IpCache}
use ebpf_nids.Loader.System.{
  State, Effect, open_fd, set_flags, set_nonblock, close_slots, free_cache, close_server,
  open_new_log, open_log_file, cleanup,
}

-- Whether the descriptor `fd` is open without O_NONBLOCK, after a call.
unfoldable pub blocks : ℕ → Bool → Effect → Bool
blocks fd b (open_fd x) = if x == fd then true else b
blocks fd b (set_flags x (some flags)) = if x == fd then bit_at 11 flags == 0 else b
blocks fd b _ = b

-- The same, after some calls.
unfoldable pub blocked : ℕ → Bool → List Effect → Bool
unfolding blocks
blocked fd b [] = b
blocked fd b (e ∷ es) = blocked fd (blocks fd b e) es

-- After these calls none of the descriptors that they open blocks.
abbrev pub NeverBlocks : List Effect → Type 0
NeverBlocks es = (fd : ℕ) → blocked fd false es ≡ false

blocked-append :
    (fd : ℕ) (b : Bool) (xs ys : List Effect)
    → blocked fd b (xs ++ ys) ≡ blocked fd (blocked fd b xs) ys
unfolding blocked
blocked-append fd b [] ys = refl
blocked-append fd b (e ∷ xs) ys = blocked-append fd (blocks fd b e) xs ys

pub NeverBlocks-nil : NeverBlocks []
unfolding blocked
NeverBlocks-nil fd = refl

pub NeverBlocks-append :
    (xs ys : List Effect) → NeverBlocks xs → NeverBlocks ys → NeverBlocks (xs ++ ys)
NeverBlocks-append xs ys h k fd =
    blocked-append fd false xs ys ∙ ap (λ b. blocked fd b ys) (h fd) ∙ k fd

-- A call that neither opens a descriptor nor changes its flags.
unfoldable pub is_other : Effect → Bool
is_other (open_fd x) = false
is_other (set_flags x flags) = false
is_other _ = true

pub NeverBlocks-cons :
    (e : Effect) (es : List Effect) → is_other e ≡ true → NeverBlocks es → NeverBlocks (e ∷ es)
unfolding blocked is_other
NeverBlocks-cons (open_fd x) es h k = absurd (ground (arith, h))
NeverBlocks-cons (set_flags x flags) es h k = absurd (ground (arith, h))
NeverBlocks-cons _ es h k = k

-- A descriptor whose flags are set when it is opened.
pub NeverBlocks-open :
    (x flags : ℕ) (es : List Effect)
    → NeverBlocks es
    → NeverBlocks (open_fd x ∷ set_flags x (set_nonblock (pos flags)) ∷ es)
unfolding blocked set_nonblock
NeverBlocks-open x flags es k fd =
    let set : bit_at 11 (bit_or flags 0x800) ≡ 1 = bit_at-bit_or 11 11 flags in
    rw set (elim (Bool-cases (x == fd)) [ inl same ↦ rw same (k fd) | inr other ↦ rw other (k fd) ])

close_slots-NeverBlocks : (fds : Slots) → NeverBlocks (close_slots fds).1
unfolding close_slots is_other
close_slots-NeverBlocks [] = NeverBlocks-nil
close_slots-NeverBlocks (none ∷ fds) = close_slots-NeverBlocks fds
close_slots-NeverBlocks (some fd ∷ fds) = NeverBlocks-cons _ _ refl (close_slots-NeverBlocks fds)

free_cache-NeverBlocks : (ps : List IpCache) → NeverBlocks (free_cache ps)
unfolding free_cache is_other
free_cache-NeverBlocks [] = NeverBlocks-nil
free_cache-NeverBlocks (p ∷ ps) = NeverBlocks-cons _ _ refl (free_cache-NeverBlocks ps)

close_server-NeverBlocks :
    (server : Option ℕ) (path : Bytes) → NeverBlocks (close_server server path)
unfolding close_server is_other
close_server-NeverBlocks none path = NeverBlocks-nil
close_server-NeverBlocks (some fd) path =
    NeverBlocks-cons _ _ refl (NeverBlocks-cons _ _ refl NeverBlocks-nil)

-- One such call, if a test says so.
NeverBlocks-if :
    (b : Bool) (e : Effect) → is_other e ≡ true → NeverBlocks (if b then e ∷ [] else [])
NeverBlocks-if true e h = NeverBlocks-cons e [] h NeverBlocks-nil
NeverBlocks-if false e h = NeverBlocks-nil

pub cleanup-NeverBlocks : (ok : Bool) (s : State) → NeverBlocks (cleanup ok s).1
unfolding cleanup is_other
cleanup-NeverBlocks ok s = NeverBlocks-append _ _ (NeverBlocks-if s.rb _ refl) (
    NeverBlocks-append _ _ (NeverBlocks-if (s.xdp_attached && ltb 0 s.ifindex) _ refl) (
      NeverBlocks-append _ _ (NeverBlocks-if s.skel _ refl) (
        NeverBlocks-append _ _ (close_slots-NeverBlocks s.publisher.slots) (
          NeverBlocks-append _ _ (close_server-NeverBlocks s.server_fd s.cfg.socket_path) (
            NeverBlocks-append _ _ (free_cache-NeverBlocks s.cache_head)
              (NeverBlocks-if s.log_fp _ refl))))))

open_new_log-NeverBlocks : (ok : Bool) (s : State) → NeverBlocks (open_new_log ok s).1
unfolding open_new_log is_other
open_new_log-NeverBlocks ok s =
    let P = λ (r : State × List Effect × Bool). NeverBlocks r.1 in
    if_both P (str_eq s.cfg.log_file (codes "") || str_eq s.cfg.log_file (codes "syslog"))
      NeverBlocks-nil (if_both P ok (NeverBlocks-cons _ _ refl NeverBlocks-nil) NeverBlocks-nil)

pub open_log_file-NeverBlocks : (ok : Bool) (s : State) → NeverBlocks (open_log_file ok s).1
unfolding open_log_file is_other
open_log_file-NeverBlocks ok s =
    NeverBlocks-append _ _ (NeverBlocks-if s.log_fp _ refl)
      (open_new_log-NeverBlocks ok (record s { log_fp = false }))
