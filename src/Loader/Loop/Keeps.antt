-- ===== src/Loader/Loop/Keeps.antt =====
-- What holds all through the loop, and at the end of the program.
use ebpf_nids.Prelude.Int.{ℤ}
use mathlib.Core.List.{foldl}
use ebpf_nids.Prelude.{
  ℕ, ◌+◌, ◌≤◌, ◌≡◌, refl, sym, ap, ◌∙◌, Bool, false, Option, none, some, List, [], ◌∷◌, ◌++◌,
  append-nil, arith, length, leb, if_both, Bool-cases, inl, inr,
}
use mathlib.Core.Path.{subst}
use ebpf_nids.Prelude.Text.{Bytes}
use ebpf_nids.Loader.Config.{File}
use ebpf_nids.Loader.Config.Valid.{IsValid}
use ebpf_nids.Loader.Config.Reload.{reload_config_runtime, reload-Pinned}
use ebpf_nids.Loader.Clients.{Accepted}
use ebpf_nids.Loader.Publish.{Network}
use ebpf_nids.Loader.Stats.{report_key}
use ebpf_nids.Loader.Stats.Visits.{Iterates, read_and_report_stats_lem}
use ebpf_nids.Loader.Stats.Settles.{reported-Settles}
use ebpf_nids.Loader.System.{State, Effect, Signal, sighup, sig_handler, open_log_file}
use ebpf_nids.Loader.System.Ledger.{
  Resource, log, ring, skeleton, program, descriptor, gained, lost, account, Balanced,
  Balanced-trans, AllPlain, AllPlain-append, Files-AllPlain, Squares,
}
use ebpf_nids.Loader.Startup.Steps.{open_log_file-rest}
use ebpf_nids.Loader.Loop.{
  RingRecord, Tick, Loop, accept_step, reload_step, poll_step, reporter, stats_step, iteration,
}
use ebpf_nids.Loader.Loop.Steps.{
  Settles-Balanced, accept_step-Balanced, reload_step-Balanced, poll_step-Balanced,
  accept_step-AllPlain, reload_step-AllPlain,
}

-- What `cleanup` gives back by name, and what says that there is something to give back.
pub record Anchors : Type 0 where
  pub rb : Bool
  pub skel : Bool
  pub xdp_attached : Bool
  pub ifindex : ℕ
  pub server_fd : Option ℕ
  pub ifname : Bytes
  pub socket_path : Bytes
  pub xdp_flags : ℕ

abbrev pub anchors : State → Anchors
anchors s = record {
  rb = s.rb;
  skel = s.skel;
  xdp_attached = s.xdp_attached;
  ifindex = s.ifindex;
  server_fd = s.server_fd;
  ifname = s.cfg.ifname;
  socket_path = s.cfg.socket_path;
  xdp_flags = s.cfg.xdp_flags;
}

pub record IsKept (s t : State) : Type 0 where
  pub same : anchors t ≡ anchors s
  pub config : IsValid t.cfg

pub IsKept-trans : {s t u : State} → IsKept s t → IsKept t u → IsKept s u
IsKept-trans p q = record { same = q.same ∙ p.same; config = q.config }

pub IsKept-refl : (s : State) → IsValid s.cfg → IsKept s s
IsKept-refl s v = record { same = refl; config = v }

sig_handler-IsKept : (s : State) (g : Signal) → IsValid s.cfg → IsKept s (sig_handler s g)
unfolding sig_handler
sig_handler-IsKept s sighup v = record { same = refl; config = v }
sig_handler-IsKept s _ v = record { same = refl; config = v }

signals-IsKept : (s : State) (gs : List Signal) → IsValid s.cfg → IsKept s (foldl sig_handler s gs)
signals-IsKept s [] v = IsKept-refl s v
signals-IsKept s (g ∷ gs) v =
    let k = sig_handler-IsKept s g v in
    IsKept-trans k (signals-IsKept (sig_handler s g) gs k.config)

accept_step-IsKept :
    (getfl : ℕ → ℤ) (calls : List Accepted) (s : State)
    → IsValid s.cfg
    → IsKept s (accept_step getfl calls s).0
unfolding accept_step
accept_step-IsKept getfl calls s v = record { same = refl; config = v }

open_log_file-IsKept : (ok : Bool) (s : State) → IsValid s.cfg → IsKept s (open_log_file ok s).0
open_log_file-IsKept ok s v =
    let (c, p, sv, sk, at, ix, rb) = open_log_file-rest ok s in
    record { same = ground (arith, c, sv, sk, at, ix, rb); config = subst IsValid (sym c) v }

reload_step-IsKept :
    (file : File) (ok : Bool) (s : State) → IsValid s.cfg → IsKept s (reload_step file ok s).0
unfolding reload_step
reload_step-IsKept file ok s v =
    let (pinned, w) = reload-Pinned s.cfg file v in
    let t = record s { cfg = (reload_config_runtime s.cfg file).cfg; reload_requested = false } in
    let k : IsKept s t = record {
      same = λ i. record (anchors s) {
        ifname = pinned.0 i;
        socket_path = pinned.1 i;
        xdp_flags = pinned.2 i;
      };
      config = w;
    } in
    if_both (λ (r : State × List Effect). IsKept s r.0) s.reload_requested
      (if_both (λ (r : State × List Effect). IsKept s r.0)
        (reload_config_runtime s.cfg file).reopen_log (IsKept-trans k (open_log_file-IsKept ok t w))
        k)
      (IsKept-refl s v)

poll_step-IsKept :
    (net : Network) (rs : List RingRecord) (s : State)
    → IsValid s.cfg
    → IsKept s (poll_step net rs s)
unfolding poll_step
poll_step-IsKept net rs s v =
    if_both (IsKept s) s.rb (record { same = refl; config = v }) (IsKept-refl s v)

-- The kernel's iteration of the map ends within the fuel.
pub record IsFuelled (t : Tick) : Type 0 where
  pub keys : List ℕ
  pub iterates : Iterates t.view none keys
  pub enough : length keys ≤ t.fuel

-- A step of the loop from `s`, with its calls.
pub record Keeps (s : State) (es : List Effect) (t : State) : Type 0 where
  pub kept : IsKept s t
  pub balanced : Balanced s es t
  pub plain : AllPlain es

pub Keeps-trans :
    (s t u : State) (a b : List Effect) → Keeps s a t → Keeps t b u → Keeps s (a ++ b) u
Keeps-trans s t u a b p q = record {
  kept = IsKept-trans p.kept q.kept;
  balanced = Balanced-trans s t u a b p.balanced q.balanced;
  plain = AllPlain-append a b p.plain q.plain;
}

pub Keeps-Squares : (s : State) (es : List Effect) (t : State) → Keeps s es t → Squares s es t
Keeps-Squares s es t k = record {
  balanced = k.balanced;
  files =
      Files-AllPlain s es t k.plain (ap (λ a. a.server_fd) k.kept.same)
        (ap (λ a. a.socket_path) k.kept.same);
}

refl_Balanced : (s : State) → Balanced s [] s
unfolding gained lost
refl_Balanced s r = refl

pub Keeps-refl : (s : State) → IsValid s.cfg → Keeps s [] s
Keeps-refl s v = record { kept = IsKept-refl s v; balanced = refl_Balanced s; plain = tt }

stats_step-Keeps :
    (t : Tick) (s : State) (last : ℕ)
    → IsFuelled t
    → IsValid s.cfg
    → (r : State × ℕ) × (stats_step t s last ≡ some r) × Keeps s [] r.0
unfolding stats_step
stats_step-Keeps t s last f v = elim (Bool-cases (leb (last + s.cfg.stats_interval_sec) t.now)) [
  | inr early ↦ ((s, last), rw early refl, Keeps-refl s v)
  | inl due ↦
      let interval = s.cfg.stats_interval_sec in
      let r = foldl (report_key t.world interval t.view) (reporter s) f.keys in
      (
        (record s { cache_head = r.cache; publisher = r.publisher }, t.now),
        rw due (
            rw
              (read_and_report_stats_lem t.world interval t.view f.keys t.fuel (reporter s)
                f.iterates f.enough)
              refl),
        record {
          kept = record { same = refl; config = v };
          balanced =
              Settles-Balanced s r.publisher r.cache
                (reported-Settles t.world interval t.view f.keys (reporter s));
          plain = tt;
        },
      )
]

account-sig_handler :
    (s : State) (g : Signal) (r : Resource) → account r (sig_handler s g) ≡ account r s
unfolding account sig_handler
account-sig_handler s g (descriptor fd) = ground arith
account-sig_handler s g log = ground arith
account-sig_handler s g ring = ground arith
account-sig_handler s g skeleton = ground arith
account-sig_handler s g (program i mode) = ground arith

signals-account :
    (s : State) (gs : List Signal) (r : Resource) → account r (foldl sig_handler s gs) ≡ account r s
signals-account s [] r = refl
signals-account s (g ∷ gs) r = signals-account (sig_handler s g) gs r ∙ account-sig_handler s g r

pub signals-Keeps :
    (s : State) (gs : List Signal) → IsValid s.cfg → Keeps s [] (foldl sig_handler s gs)
unfolding gained lost
signals-Keeps s gs v = record {
  kept = signals-IsKept s gs v;
  balanced = λ r. omega (arith, signals-account s gs r);
  plain = tt;
}

-- One round of the loop, whatever happens in it, comes to its end and keeps what is anchored.
pub iteration-Keeps :
    (t : Tick) (l : Loop)
    → IsFuelled t
    → IsValid l.state.cfg
    → (l' : Loop) × (es : List Effect) × (iteration t l ≡ some l')
      × (l'.made ≡ l.made ++ es)
      × Keeps l.state es l'.state
unfolding iteration
iteration-Keeps t l f v =
    let s = l.state in
    let a = accept_step t.getfl t.calls s in
    let ka : Keeps s a.1 a.0 = record {
      kept = accept_step-IsKept t.getfl t.calls s v;
      balanced = accept_step-Balanced t.getfl t.calls s;
      plain = accept_step-AllPlain t.getfl t.calls s;
    } in
    let b = reload_step t.file t.fopen_ok a.0 in
    let kb : Keeps a.0 b.1 b.0 = record {
      kept = reload_step-IsKept t.file t.fopen_ok a.0 ka.kept.config;
      balanced = reload_step-Balanced t.file t.fopen_ok a.0 ka.kept.config;
      plain = reload_step-AllPlain t.file t.fopen_ok a.0;
    } in
    let c = poll_step t.world.net t.polled b.0 in
    let kc : Keeps b.0 [] c = record {
      kept = poll_step-IsKept t.world.net t.polled b.0 kb.kept.config;
      balanced = poll_step-Balanced t.world.net t.polled b.0;
      plain = tt;
    } in
    let (d, done, kd) = stats_step-Keeps t c l.last_stats_ts f kc.kept.config in
    let whole =
      Keeps-trans s b.0 d.0 (a.1 ++ b.1) [] (Keeps-trans s a.0 b.0 a.1 b.1 ka kb)
        (Keeps-trans b.0 c d.0 [] [] kc kd) in
    (
      record { state = d.0; last_stats_ts = d.1; made = l.made ++ (a.1 ++ b.1) },
      a.1 ++ b.1,
      rw done refl,
      refl,
      subst (λ es. Keeps s es d.0) (append-nil (a.1 ++ b.1)) whole,
    )
