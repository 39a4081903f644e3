-- ===== src/Loader/System/Files.antt =====
-- Where the socket's file is, and which cache entries are freed, as far as `open_log_file` and
-- `cleanup` of project_submit/ebpf_control/src/loader.c go.
use ebpf_nids.Prelude.{
  ℕ, ◌≡◌, refl, ap, ◌∙◌, Bool, false, Option, none, some, List, [], ◌∷◌, ◌++◌, append-nil, arith,
  if_both, ◌||◌, ◌&&◌, ltb,
}
use ebpf_nids.Prelude.Text.{Bytes, codes, str_eq}
use ebpf_nids.Loader.Clients.{Slots}
use ebpf_nids.Loader.Rates.{IpCache}
use ebpf_nids.Loader.System.{
  State, Effect, close_slots, free_cache, close_server, open_new_log, open_log_file, cleanup,
}
use ebpf_nids.Loader.System.Ledger.{
  AllPlain, AllPlain-append, bound, bound-append, bound_plain, serves, Files, freed, freed-append,
  freed_plain,
}
use ebpf_nids.Loader.System.Release.{seg_ring, seg_detach, seg_skel, seg_log}

pub open_log_file-AllPlain : (ok : Bool) (s : State) → AllPlain (open_log_file ok s).1
unfolding open_log_file open_new_log
open_log_file-AllPlain ok s =
    let P = λ (r : State × List Effect × Bool). AllPlain r.1 in
    AllPlain-append _ _ (if_both AllPlain s.log_fp (refl, tt) tt) (
      if_both P (str_eq s.cfg.log_file (codes "") || str_eq s.cfg.log_file (codes "syslog")) tt
        (if_both P ok (refl, tt) tt))

close_slots-AllPlain : (fds : Slots) → AllPlain (close_slots fds).1
unfolding close_slots
close_slots-AllPlain [] = tt
close_slots-AllPlain (none ∷ fds) = close_slots-AllPlain fds
close_slots-AllPlain (some fd ∷ fds) = (refl, close_slots-AllPlain fds)

bound-free_cache : (p : Bytes) (b : Bool) (ps : List IpCache) → bound p b (free_cache ps) ≡ b
unfolding bound free_cache
bound-free_cache p b [] = refl
bound-free_cache p b (c ∷ ps) = bound-free_cache p b ps

freed-free_cache : (ps : List IpCache) → freed (free_cache ps) ≡ ps
unfolding freed free_cache
freed-free_cache [] = refl
freed-free_cache (c ∷ ps) = ap (◌∷◌ c) (freed-free_cache ps)

freed-close_server : (o : Option ℕ) (path : Bytes) → freed (close_server o path) ≡ []
unfolding freed close_server
freed-close_server none path = refl
freed-close_server (some fd) path = refl

-- Closing the server takes the file away with it.
bound-close_server :
    (p : Bytes) (o : Option ℕ) (path : Bytes)
    → bound p (serves p o path) (close_server o path) ≡ false
unfolding bound close_server serves
bound-close_server p none path = refl
bound-close_server p (some fd) path = ground arith

module _ (ok : Bool) (s : State) where
  abbrev seg_clients : List Effect
  seg_clients = (close_slots s.publisher.slots).1

  abbrev seg_server : List Effect
  seg_server = close_server s.server_fd s.cfg.socket_path

  bound-cleanup : (p : Bytes) (b : Bool) → bound p b (cleanup ok s).1 ≡ bound p b seg_server
  unfolding cleanup
  bound-cleanup p b =
      step (seg_ring ok s) _ (if_both AllPlain s.rb (refl, tt) tt)
      ∙ step (seg_detach ok s) _
          (if_both AllPlain (s.xdp_attached && ltb 0 s.ifindex) (refl, tt) tt)
      ∙ step (seg_skel ok s) _ (if_both AllPlain s.skel (refl, tt) tt)
      ∙ step seg_clients _ (close_slots-AllPlain s.publisher.slots)
      ∙ bound-append p b seg_server _
      ∙ bound-append p (bound p b seg_server) (free_cache s.cache_head) _
      ∙ bound_plain p _ (seg_log ok s) (if_both AllPlain s.log_fp (refl, tt) tt)
      ∙ bound-free_cache p (bound p b seg_server) s.cache_head
    where
      step : (xs ys : List Effect) → AllPlain xs → bound p b (xs ++ ys) ≡ bound p b ys
      step xs ys h = bound-append p b xs ys ∙ ap (λ c. bound p c ys) (bound_plain p b xs h)

  -- What `cleanup` frees is the cache, each entry once.
  pub freed-cleanup : freed (cleanup ok s).1 ≡ s.cache_head
  unfolding cleanup freed close_server
  freed-cleanup =
      step (seg_ring ok s) _ (if_both AllPlain s.rb (refl, tt) tt)
      ∙ step (seg_detach ok s) _
          (if_both AllPlain (s.xdp_attached && ltb 0 s.ifindex) (refl, tt) tt)
      ∙ step (seg_skel ok s) _ (if_both AllPlain s.skel (refl, tt) tt)
      ∙ step seg_clients _ (close_slots-AllPlain s.publisher.slots)
      ∙ freed-append seg_server _
      ∙ ap (◌++◌ (freed seg_server)) (freed-append (free_cache s.cache_head) (seg_log ok s))
      ∙ rw
          (
            freed-close_server s.server_fd s.cfg.socket_path,
            freed-free_cache s.cache_head,
            freed_plain (seg_log ok s) (if_both AllPlain s.log_fp (refl, tt) tt),
          )
          (append-nil s.cache_head)
    where
      step : (xs ys : List Effect) → AllPlain xs → freed (xs ++ ys) ≡ freed ys
      step xs ys h = freed-append xs ys ∙ ap (λ zs. zs ++ freed ys) (freed_plain xs h)

  pub cleanup-Files : Files s (cleanup ok s).1 (cleanup ok s).0
  unfolding cleanup serves
  cleanup-Files p = bound-cleanup p _ ∙ bound-close_server p s.server_fd s.cfg.socket_path
