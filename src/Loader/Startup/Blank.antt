-- ===== src/Loader/Startup/Blank.antt =====
-- The state of project_submit/ebpf_control/src/loader.c before it opens anything.
use ebpf_nids.Prelude.{
  ℕ, ◌+◌, zero, suc, ◌≡◌, refl, ◌∙◌, true, false, none, List, [], arith, replicate,
}
use ebpf_nids.Prelude.Text.{Bytes}
use ebpf_nids.Loader.Config.{AppConfig}
use ebpf_nids.Loader.Clients.{init_clients}
use ebpf_nids.Loader.Clients.Conserve.{count, held}
use ebpf_nids.Loader.System.{State, Effect}
use ebpf_nids.Loader.System.Ledger.{
  Resource, log, ring, skeleton, program, descriptor, gained, lost, holds, account, Balanced,
  Squares, bound, serves, detached, lost_program,
}
use ebpf_nids.Loader.Startup.{initial}

-- The state before anything is opened, with some configuration.
abbrev pub at_start : AppConfig → State
at_start cfg = record initial { cfg = cfg }

held-replicate : (n : ℕ) → held (replicate n none) ≡ []
unfolding held
held-replicate zero = refl
held-replicate (suc n) = held-replicate n

pub at_start-held : (cfg : AppConfig) → held (at_start cfg).publisher.slots ≡ []
unfolding initial init_clients
at_start-held cfg = held-replicate 16

pub at_start-Balanced : (cfg : AppConfig) → Balanced initial [] (at_start cfg)
unfolding account gained lost initial
at_start-Balanced cfg log = refl
at_start-Balanced cfg ring = refl
at_start-Balanced cfg skeleton = refl
at_start-Balanced cfg (program i mode) = refl
at_start-Balanced cfg (descriptor fd) = refl

-- A state with no descriptor, ring buffer, skeleton, program or log.
pub holds_nothing :
    (s : State) (r : Resource)
    → (s.server_fd ≡ none)
      × (s.skel ≡ false)
      × (s.xdp_attached ≡ false)
      × (s.rb ≡ false)
      × (held s.publisher.slots ≡ [])
      × (s.log_fp ≡ false)
    → holds r s ≡ 0
unfolding holds count
holds_nothing s (descriptor fd) h = rw h.4 (ground arith)
holds_nothing s log h = ground arith
holds_nothing s ring h = ground arith
holds_nothing s skeleton h = ground arith
holds_nothing s (program i mode) h = ground arith

pub at_start-holds : (cfg : AppConfig) (r : Resource) → holds r (at_start cfg) ≡ 0
at_start-holds cfg r =
    holds_nothing (at_start cfg) r
      (unfold initial in (refl, refl, refl, refl, at_start-held cfg, refl))

pub at_start-Squares : (cfg : AppConfig) → Squares initial [] (at_start cfg)
unfolding initial bound serves
at_start-Squares cfg = record { balanced = at_start-Balanced cfg; files = λ p. refl }

-- A program that has ended with these calls. Nothing is held any more, and what was acquired was
-- given back; each program that was attached the kernel was asked to detach, once and in the mode
-- of its attachment, and did or refused; and no file of a socket is left.
pub record Gone (es : List Effect) (s : State) : Type 0 where
  pub balanced : Balanced initial es s
  pub nothing : (r : Resource) → holds r s ≡ 0
  pub programs :
      (i mode : ℕ) → gained (program i mode) es ≡ detached true i mode es + detached false i mode es
  pub no_file : (path : Bytes) → bound path false es ≡ false

pub Squares-Gone :
    (es : List Effect) (s : State)
    → Squares initial es s
    → ((r : Resource) → holds r s ≡ 0)
    → s.server_fd ≡ none
    → Gone es s
unfolding account holds initial serves
Squares-Gone es s q none_held closed = record {
  balanced = q.balanced;
  nothing = none_held;
  programs = λ i mode.
      omega
        (arith, q.balanced (program i mode), none_held (program i mode), lost_program i mode es);
  no_file = λ p. q.files p ∙ rw closed refl;
}
