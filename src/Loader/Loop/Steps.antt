-- ===== src/Loader/Loop/Steps.antt =====
-- What each step of the loop does to the descriptors, and what it leaves alone.
use mathlib.Core.List.{foldl}
use ebpf_nids.Prelude.{ℕ, ◌≡◌, refl, ◌∙◌, Bool, false, List, [], ◌∷◌, arith, if_both}
use ebpf_nids.Prelude.Int.{ℤ}
use ebpf_nids.Loader.Config.{AppConfig, File}
use ebpf_nids.Loader.Config.Valid.{IsValid}
use ebpf_nids.Loader.Config.Reload.{reload_config_runtime, reload-Pinned}
use ebpf_nids.Loader.Clients.{Accepted, accept_clients}
use ebpf_nids.Loader.Clients.Conserve.{count, handed, count-append, accept_clients-Conserves}
use ebpf_nids.Loader.Publish.{Publisher, Network}
use ebpf_nids.Loader.Rates.{IpCache}
use ebpf_nids.Loader.System.{State, Effect, open_log_file}
use ebpf_nids.Loader.System.Ledger.{
  Resource, log, ring, skeleton, program, descriptor, gained, lost, account, Balanced,
  Balanced-trans, AllPlain,
}
use ebpf_nids.Loader.System.Files.{open_log_file-AllPlain}
use ebpf_nids.Loader.Startup.Steps.{open_log_file-Balanced}
use ebpf_nids.Loader.Loop.{RingRecord, accept_calls, accept_step, reload_step, poll_step, on_record}
use ebpf_nids.Loader.Publish.Settles.{Settles, handle_alert-Settles}

polled-Settles :
    (net : Network) (rs : List RingRecord) (p : Publisher) → Settles p (foldl (on_record net) p rs)
polled-Settles net [] p fd = refl
polled-Settles net (r ∷ rs) p fd =
    polled-Settles net rs (on_record net p r) fd ∙ handle_alert-Settles net p r.payload r.size fd

refl_ledger : (s : State) → Balanced s [] s
unfolding gained lost
refl_ledger s r = refl

pub Settles-Balanced :
    (s : State) (p : Publisher) (cache : List IpCache)
    → Settles s.publisher p
    → Balanced s [] (record s { publisher = p; cache_head = cache })
unfolding account gained lost
Settles-Balanced s p cache h (descriptor fd) = omega (arith, h fd)
Settles-Balanced s p cache h log = refl
Settles-Balanced s p cache h ring = refl
Settles-Balanced s p cache h skeleton = refl
Settles-Balanced s p cache h (program i mode) = refl

-- How often a resource is among some descriptors.
abbrev fd_count : Resource → List ℕ → ℕ
fd_count (descriptor fd) fds = count fd fds
fd_count _ fds = 0

accepted_ledger :
    (getfl : ℕ → ℤ) (r : Resource) (fds : List ℕ)
    → (lost r (accept_calls getfl fds) ≡ 0) × (gained r (accept_calls getfl fds) ≡ fd_count r fds)
unfolding gained lost count accept_calls
accepted_ledger getfl (descriptor fd) [] = (refl, refl)
accepted_ledger getfl (descriptor fd) (x ∷ fds) =
    ground (arith, accepted_ledger getfl (descriptor fd) fds)
accepted_ledger getfl log [] = (refl, refl)
accepted_ledger getfl r [] = (refl, refl)
accepted_ledger getfl r (x ∷ fds) = ground (arith, accepted_ledger getfl r fds)

pub accept_step-Balanced :
    (getfl : ℕ → ℤ) (calls : List Accepted) (s : State)
    → Balanced s (accept_step getfl calls s).1 (accept_step getfl calls s).0
unfolding accept_step account
accept_step-Balanced getfl calls s (descriptor fd) =
    let r = accept_clients s.publisher.slots calls in
    let c = accept_clients-Conserves s.publisher.slots calls in
    let (l, g) = accepted_ledger getfl (descriptor fd) (handed calls) in
    omega (arith, l, g, c.counts fd, count-append fd s.publisher.closed r.1)
accept_step-Balanced getfl calls s log = omega (arith, accepted_ledger getfl log (handed calls))
accept_step-Balanced getfl calls s ring = omega (arith, accepted_ledger getfl ring (handed calls))
accept_step-Balanced getfl calls s skeleton =
    omega (arith, accepted_ledger getfl skeleton (handed calls))
accept_step-Balanced getfl calls s (program i mode) =
    omega (arith, accepted_ledger getfl (program i mode) (handed calls))

accept_calls-AllPlain : (getfl : ℕ → ℤ) (fds : List ℕ) → AllPlain (accept_calls getfl fds)
unfolding accept_calls
accept_calls-AllPlain getfl [] = tt
accept_calls-AllPlain getfl (fd ∷ fds) = (refl, (refl, accept_calls-AllPlain getfl fds))

pub accept_step-AllPlain :
    (getfl : ℕ → ℤ) (calls : List Accepted) (s : State) → AllPlain (accept_step getfl calls s).1
unfolding accept_step
accept_step-AllPlain getfl calls s = accept_calls-AllPlain getfl (handed calls)

pub reload_step-AllPlain :
    (file : File) (ok : Bool) (s : State) → AllPlain (reload_step file ok s).1
unfolding reload_step
reload_step-AllPlain file ok s =
    let c = reload_config_runtime s.cfg file in
    let P = λ (r : State × List Effect). AllPlain r.1 in
    if_both P s.reload_requested (if_both P c.reopen_log (open_log_file-AllPlain ok _) tt) tt

with_cfg : State → AppConfig → State
with_cfg s c = record s { cfg = c; reload_requested = false }

with_cfg-Balanced :
    (s : State) (c : AppConfig) → c.xdp_flags ≡ s.cfg.xdp_flags → Balanced s [] (with_cfg s c)
unfolding account with_cfg gained lost
with_cfg-Balanced s c e (descriptor fd) = refl
with_cfg-Balanced s c e log = refl
with_cfg-Balanced s c e ring = refl
with_cfg-Balanced s c e skeleton = refl
with_cfg-Balanced s c e (program i mode) = rw e refl

pub reload_step-Balanced :
    (file : File) (ok : Bool) (s : State)
    → IsValid s.cfg
    → Balanced s (reload_step file ok s).1 (reload_step file ok s).0
unfolding reload_step with_cfg
reload_step-Balanced file ok s v =
    let flags = (reload-Pinned s.cfg file v).0.2 in
    let c = reload_config_runtime s.cfg file in
    let t = with_cfg s c.cfg in
    if_both (λ (r : State × List Effect). Balanced s r.1 r.0) s.reload_requested
      (if_both (λ (r : State × List Effect). Balanced s r.1 r.0) c.reopen_log
        (Balanced-trans s t (open_log_file ok t).0 [] (open_log_file ok t).1
          (with_cfg-Balanced s c.cfg flags) (open_log_file-Balanced ok t))
        (with_cfg-Balanced s c.cfg flags))
      (λ x. refl_ledger s x)

pub poll_step-Balanced :
    (net : Network) (rs : List RingRecord) (s : State) → Balanced s [] (poll_step net rs s)
unfolding poll_step
poll_step-Balanced net rs s =
    if_both (λ (t : State). Balanced s [] t) s.rb
      (Settles-Balanced s (foldl (on_record net) s.publisher rs) s.cache_head
        (polled-Settles net rs s.publisher))
      (refl_ledger s)
