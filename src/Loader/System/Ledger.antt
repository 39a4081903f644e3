-- ===== src/Loader/System/Ledger.antt =====
-- What the process holds, and what its calls acquire and give back.
use ebpf_nids.Prelude.{
  ℕ, ◌+◌, ◌&&◌, refl, ap, ◌∙◌, ◌≡◌, Bool, true, false, Option, none, some, List, [], ◌∷◌, ◌++◌,
  arith, ◌==◌, if◌then◌else◌,
}
use ebpf_nids.Prelude.Text.{Bytes, str_eq}
use ebpf_nids.Loader.Rates.{IpCache}
use ebpf_nids.Loader.Clients.Conserve.{count, held}
use ebpf_nids.Loader.System.{
  State, Effect, open_log, open_skeleton, create_ring, open_fd, close_log, free_ring,
  destroy_skeleton, attach_xdp, detach_xdp, close_fd, bind_path, unlink_path, free_entry,
  detach_flags,
}

-- `program i mode` is the program on the interface `i`. A mode is what the flags of its attachment say
-- without XDP_FLAGS_UPDATE_IF_NOEXIST; the kernel detaches in the mode that it is asked for.
pub data Resource : Type 0 where
  log ring skeleton : Resource
  program : ℕ → ℕ → Resource
  descriptor : ℕ → Resource

abbrev pub gain : Resource → Effect → ℕ
gain log (open_log path) = 1
gain ring create_ring = 1
gain skeleton open_skeleton = 1
gain (program i mode) (attach_xdp j flags) = if j == i && detach_flags flags == mode then 1 else 0
gain (descriptor fd) (open_fd x) = if x == fd then 1 else 0
gain _ _ = 0

abbrev pub loss : Resource → Effect → ℕ
loss log close_log = 1
loss ring free_ring = 1
loss skeleton destroy_skeleton = 1
loss (program i mode) (detach_xdp j flags ok) = if j == i && flags == mode then 1 else 0
loss (descriptor fd) (close_fd x) = if x == fd then 1 else 0
loss _ _ = 0

-- How often the calls acquire a resource, and how often they give it back. For the program this is
-- how often the kernel is asked to detach it.
unfoldable pub gained : Resource → List Effect → ℕ
gained r [] = 0
gained r (e ∷ es) = gain r e + gained r es

unfoldable pub lost : Resource → List Effect → ℕ
lost r [] = 0
lost r (e ∷ es) = loss r e + lost r es

abbrev pub bit : Bool → ℕ
bit true = 1
bit false = 0

abbrev pub holds_server : Option ℕ → ℕ → ℕ
holds_server none fd = 0
holds_server (some x) fd = if x == fd then 1 else 0

-- How often the process holds a resource.
unfoldable pub holds : Resource → State → ℕ
holds log s = bit s.log_fp
holds ring s = bit s.rb
holds skeleton s = bit s.skel
holds (program i mode) s =
    if s.xdp_attached && (s.ifindex == i && detach_flags s.cfg.xdp_flags == mode) then 1 else 0
holds (descriptor fd) s = holds_server s.server_fd fd + count fd (held s.publisher.slots)

-- How often it is held or was closed by the client table.
unfoldable pub account : Resource → State → ℕ
unfolding holds
account (descriptor fd) s = holds (descriptor fd) s + count fd s.publisher.closed
account r s = holds r s

-- From `s` to `s'` by these calls, every resource acquired is held or given back.
abbrev pub Balanced : State → List Effect → State → Type 0
Balanced s es s' = (r : Resource) → account r s + gained r es ≡ account r s' + lost r es

pub gained-append : (r : Resource) (a b : List Effect) → gained r (a ++ b) ≡ gained r a + gained r b
unfolding gained
gained-append r [] b = omega arith
gained-append r (e ∷ a) b = omega (arith, gained-append r a b)

pub lost-append : (r : Resource) (a b : List Effect) → lost r (a ++ b) ≡ lost r a + lost r b
unfolding lost
lost-append r [] b = omega arith
lost-append r (e ∷ a) b = omega (arith, lost-append r a b)

pub Balanced-trans :
    (s t u : State) (a b : List Effect) → Balanced s a t → Balanced t b u → Balanced s (a ++ b) u
Balanced-trans s t u a b p q r = omega (arith, p r, q r, gained-append r a b, lost-append r a b)

-- The requests to detach the program that the kernel answers like this.
unfoldable pub detached : Bool → ℕ → ℕ → List Effect → ℕ
detached ok i mode [] = 0
detached true i mode (detach_xdp j flags true ∷ es) =
    (if j == i && flags == mode then 1 else 0) + detached true i mode es
detached false i mode (detach_xdp j flags false ∷ es) =
    (if j == i && flags == mode then 1 else 0) + detached false i mode es
detached ok i mode (e ∷ es) = detached ok i mode es

-- Each request is granted or refused.
pub lost_program :
    (i mode : ℕ) (es : List Effect)
    → lost (program i mode) es ≡ detached true i mode es + detached false i mode es
unfolding lost detached
lost_program i mode [] = refl
lost_program i mode (detach_xdp j flags true ∷ es) = omega (arith, lost_program i mode es)
lost_program i mode (detach_xdp j flags false ∷ es) = omega (arith, lost_program i mode es)
lost_program i mode (e ∷ es) = omega (arith, lost_program i mode es)

-- Whether a socket's file is at the path, after some calls.
abbrev pub binds : Bytes → Bool → Effect → Bool
binds p b (bind_path q) = if str_eq q p then true else b
binds p b (unlink_path q) = if str_eq q p then false else b
binds p b _ = b

unfoldable pub bound : Bytes → Bool → List Effect → Bool
bound p b [] = b
bound p b (e ∷ es) = bound p (binds p b e) es

pub bound-append :
    (p : Bytes) (b : Bool) (xs ys : List Effect) → bound p b (xs ++ ys) ≡ bound p (bound p b xs) ys
unfolding bound
bound-append p b [] ys = refl
bound-append p b (e ∷ xs) ys = bound-append p (binds p b e) xs ys

-- Whether the process has its socket at the path.
unfoldable pub serves : Bytes → Option ℕ → Bytes → Bool
serves p none path = false
serves p (some fd) path = str_eq path p

-- From `s` to `s'` by these calls, a file is where the process has its socket.
abbrev pub Files : State → List Effect → State → Type 0
Files s es s' =
    (p : Bytes)
    → bound p (serves p s.server_fd s.cfg.socket_path) es ≡ serves p s'.server_fd s'.cfg.socket_path

pub Files-trans :
    (s t u : State) (a b : List Effect) → Files s a t → Files t b u → Files s (a ++ b) u
Files-trans s t u a b h k p = bound-append p _ a b ∙ ap (λ x. bound p x b) (h p) ∙ k p

-- The cache entries that the calls free, in their order.
unfoldable pub freed : List Effect → List IpCache
freed [] = []
freed (free_entry p ∷ es) = p ∷ freed es
freed (e ∷ es) = freed es

pub freed-append : (xs ys : List Effect) → freed (xs ++ ys) ≡ freed xs ++ freed ys
unfolding freed
freed-append [] ys = refl
freed-append (free_entry p ∷ xs) ys = ap (◌∷◌ p) (freed-append xs ys)
freed-append (e ∷ xs) ys = freed-append xs ys

-- Calls that neither bind, unlink nor free.
abbrev pub is_plain : Effect → Bool
is_plain (bind_path q) = false
is_plain (unlink_path q) = false
is_plain (free_entry p) = false
is_plain _ = true

abbrev pub AllPlain : List Effect → Type 0
AllPlain [] = Unit {0}
AllPlain (e ∷ es) = (is_plain e ≡ true) × AllPlain es

pub AllPlain-append : (xs ys : List Effect) → AllPlain xs → AllPlain ys → AllPlain (xs ++ ys)
AllPlain-append [] ys h k = k
AllPlain-append (e ∷ xs) ys h k = (h.0, AllPlain-append xs ys h.1 k)

binds_plain : (p : Bytes) (b : Bool) (e : Effect) → is_plain e ≡ true → binds p b e ≡ b
binds_plain p b (bind_path q) h = absurd (ground (arith, h))
binds_plain p b (unlink_path q) h = absurd (ground (arith, h))
binds_plain p b _ h = refl

pub bound_plain : (p : Bytes) (b : Bool) (es : List Effect) → AllPlain es → bound p b es ≡ b
unfolding bound
bound_plain p b [] h = refl
bound_plain p b (e ∷ es) h = ap (λ x. bound p x es) (binds_plain p b e h.0) ∙ bound_plain p b es h.1

pub freed_plain : (es : List Effect) → AllPlain es → freed es ≡ []
unfolding freed
freed_plain [] h = refl
freed_plain (free_entry p ∷ es) h = absurd (ground (arith, h.0))
freed_plain (e ∷ es) h = freed_plain es h.1

-- Plain calls of a process that keeps its socket.
pub Files-AllPlain :
    (s : State) (es : List Effect) (s' : State)
    → AllPlain es
    → s'.server_fd ≡ s.server_fd
    → s'.cfg.socket_path ≡ s.cfg.socket_path
    → Files s es s'
Files-AllPlain s es s' h fd path p = bound_plain p _ es h ∙ rw fd (rw path refl)

-- The ledger balances, and the socket's file is where it should be.
pub record Squares (s : State) (es : List Effect) (s' : State) : Type 0 where
  pub balanced : Balanced s es s'
  pub files : Files s es s'

pub Squares-trans :
    (s t u : State) (a b : List Effect) → Squares s a t → Squares t b u → Squares s (a ++ b) u
Squares-trans s t u a b h k = record {
  balanced = Balanced-trans s t u a b h.balanced k.balanced;
  files = Files-trans s t u a b h.files k.files;
}
