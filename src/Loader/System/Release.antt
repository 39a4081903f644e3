-- ===== src/Loader/System/Release.antt =====
-- `cleanup` leaves nothing behind, and gives each thing back once.
use ebpf_nids.Prelude.{
  ℕ, ◌+◌, ◌<◌, ◌≡◌, refl, ◌∙◌, Bool, true, ◌&&◌, none, some, List, [], ◌∷◌, ◌++◌, arith, ltb,
  if◌then◌else◌,
}
use ebpf_nids.Loader.Clients.{Slots}
use ebpf_nids.Loader.Clients.Conserve.{count, held}
use ebpf_nids.Loader.Rates.{IpCache}
use ebpf_nids.Loader.System.{
  State, Effect, close_slots, free_cache, close_server, cleanup, free_ring, detach_xdp,
  destroy_skeleton, close_log, detach_flags,
}
use ebpf_nids.Loader.System.Ledger.{
  Resource, log, ring, skeleton, program, descriptor, gained, lost, gained-append, lost-append,
  holds, account, Balanced,
}

-- A program is attached only to an interface that was found.
abbrev pub IsAttachedWell : State → Type 0
IsAttachedWell s = s.xdp_attached ≡ true → 0 < s.ifindex

held-close_slots : (fds : Slots) → held (close_slots fds).0 ≡ []
unfolding held close_slots
held-close_slots [] = refl
held-close_slots (none ∷ fds) = held-close_slots fds
held-close_slots (some fd ∷ fds) = held-close_slots fds

gained-close_slots : (r : Resource) (fds : Slots) → gained r (close_slots fds).1 ≡ 0
unfolding gained close_slots
gained-close_slots r [] = refl
gained-close_slots r (none ∷ fds) = gained-close_slots r fds
gained-close_slots r (some fd ∷ fds) = ground (arith, gained-close_slots r fds)

-- How often a resource is among the descriptors in the slots.
abbrev slot_count : Resource → Slots → ℕ
slot_count (descriptor fd) fds = count fd (held fds)
slot_count _ fds = 0

lost-close_slots : (r : Resource) (fds : Slots) → lost r (close_slots fds).1 ≡ slot_count r fds
unfolding lost close_slots held count
lost-close_slots (descriptor fd) [] = refl
lost-close_slots (descriptor fd) (none ∷ fds) = lost-close_slots (descriptor fd) fds
lost-close_slots (descriptor fd) (some x ∷ fds) =
    omega (arith, lost-close_slots (descriptor fd) fds)
lost-close_slots _ [] = refl
lost-close_slots r (none ∷ fds) = ground (arith, lost-close_slots r fds)
lost-close_slots r (some x ∷ fds) = ground (arith, lost-close_slots r fds)

free_cache_lem :
    (r : Resource) (ps : List IpCache)
    → (gained r (free_cache ps) ≡ 0) × (lost r (free_cache ps) ≡ 0)
unfolding gained lost free_cache
free_cache_lem r [] = (refl, refl)
free_cache_lem r (p ∷ ps) = ground (arith, free_cache_lem r ps)

module _ (r : Resource) (a b c d e f g : List Effect) where
  abbrev all_seven : List Effect
  all_seven = a ++ (b ++ (c ++ (d ++ (e ++ (f ++ g)))))

  lost_seven :
      lost r all_seven
      ≡ lost r a + (lost r b + (lost r c + (lost r d + (lost r e + (lost r f + lost r g)))))
  lost_seven = simp lost-append

  gained_seven :
      gained r all_seven
      ≡ gained r a
        + (gained r b + (gained r c + (gained r d + (gained r e + (gained r f + gained r g)))))
  gained_seven = simp gained-append

module _ (ok : Bool) (s : State) where
  abbrev detaches : Bool
  detaches = s.xdp_attached && ltb 0 s.ifindex

  abbrev pub seg_ring : List Effect
  seg_ring = if s.rb then free_ring ∷ [] else []

  abbrev pub seg_detach : List Effect
  seg_detach = if detaches then detach_xdp s.ifindex (detach_flags s.cfg.xdp_flags) ok ∷ [] else []

  abbrev pub seg_skel : List Effect
  seg_skel = if s.skel then destroy_skeleton ∷ [] else []

  abbrev pub seg_log : List Effect
  seg_log = if s.log_fp then close_log ∷ [] else []

module _ (ok : Bool) (s : State) (r : Resource) where
  lost-cleanup :
      lost r (cleanup ok s).1
      ≡ lost r (seg_ring ok s)
        + (lost r (seg_detach ok s)
            + (lost r (seg_skel ok s)
                + (slot_count r s.publisher.slots
                    + (lost r (close_server s.server_fd s.cfg.socket_path)
                        + (0 + lost r (seg_log ok s))))))
  unfolding cleanup
  lost-cleanup =
      lost_seven r (seg_ring ok s) (seg_detach ok s) (seg_skel ok s)
        (close_slots s.publisher.slots).1 (close_server s.server_fd s.cfg.socket_path)
        (free_cache s.cache_head) (seg_log ok s)
      ∙ simp (lost-close_slots r s.publisher.slots, (free_cache_lem r s.cache_head).1)

  pub gained-cleanup : gained r (cleanup ok s).1 ≡ 0
  unfolding cleanup
  gained-cleanup =
      gained_seven r (seg_ring ok s) (seg_detach ok s) (seg_skel ok s)
        (close_slots s.publisher.slots).1 (close_server s.server_fd s.cfg.socket_path)
        (free_cache s.cache_head) (seg_log ok s)
      ∙ simp (gained-close_slots r s.publisher.slots, (free_cache_lem r s.cache_head).0)
          (unfold gained close_server in ground arith)

pub cleanup-holds :
    (ok : Bool) (s : State) (r : Resource) → IsAttachedWell s → holds r (cleanup ok s).0 ≡ 0
unfolding cleanup holds
cleanup-holds ok s (descriptor fd) h =
    rw (held-close_slots s.publisher.slots) (unfold count in refl)
cleanup-holds ok s log h = refl
cleanup-holds ok s ring h = refl
cleanup-holds ok s skeleton h = refl
cleanup-holds ok s (program i mode) h = ground arith

-- What `cleanup` leaves on the account: the descriptors that broadcasts had closed.
abbrev closed_count : Resource → State → ℕ
closed_count (descriptor fd) s = count fd s.publisher.closed
closed_count _ s = 0

account-cleanup :
    (ok : Bool) (s : State) (r : Resource)
    → IsAttachedWell s
    → account r (cleanup ok s).0 ≡ closed_count r s
unfolding account
account-cleanup ok s (descriptor fd) h =
    rw (cleanup-holds ok s (descriptor fd) h) (unfold cleanup in omega arith)
account-cleanup ok s log h = cleanup-holds ok s log h
account-cleanup ok s ring h = cleanup-holds ok s ring h
account-cleanup ok s skeleton h = cleanup-holds ok s skeleton h
account-cleanup ok s (program i mode) h = cleanup-holds ok s (program i mode) h

account_parts :
    (ok : Bool) (s : State) (r : Resource)
    → IsAttachedWell s
    → account r s
      ≡ closed_count r s
        + (lost r (seg_ring ok s)
            + (lost r (seg_detach ok s)
                + (lost r (seg_skel ok s)
                    + (slot_count r s.publisher.slots
                        + (lost r (close_server s.server_fd s.cfg.socket_path)
                            + lost r (seg_log ok s))))))
unfolding account lost close_server
account_parts ok s (descriptor fd) h = ground arith
account_parts ok s log h = ground arith
account_parts ok s ring h = ground arith
account_parts ok s skeleton h = ground arith
account_parts ok s (program i mode) h = ground arith

pub cleanup-Balanced :
    (ok : Bool) (s : State) → IsAttachedWell s → Balanced s (cleanup ok s).1 (cleanup ok s).0
cleanup-Balanced ok s h r = omega (
  arith,
  gained-cleanup ok s r,
  lost-cleanup ok s r,
  account-cleanup ok s r h,
  account_parts ok s r h,
)
