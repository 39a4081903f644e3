-- ===== src/Loader/Loop/Ends.antt =====
-- How the program ends.
use ebpf_nids.Prelude.{
  ℕ, ◌+◌, ◌&&◌, ◌==◌, if◌then◌else◌, arith, Bool, false, ◌<◌, ◌≡◌, refl, sym, ap, ◌∙◌, true, Option,
  some, List, [], ◌∷◌, ◌++◌, append-nil, append_assoc, if_both, Bool-cases, inl, inr,
}
use mathlib.Core.Path.{subst}
use ebpf_nids.Loader.Config.Valid.{IsValid}
use ebpf_nids.Loader.System.{State, Effect, cleanup, detach_flags}
use ebpf_nids.Loader.System.Files.{cleanup-Files, freed-cleanup}
use ebpf_nids.Prelude.Text.{Bytes}
use ebpf_nids.Loader.Startup.Blank.{Gone}
use ebpf_nids.Loader.System.Ledger.{
  Resource, program, holds, account, detached, lost_program, bound, serves, freed, Squares,
  Squares-trans,
}
use ebpf_nids.Loader.System.Release.{cleanup-holds, cleanup-Balanced, gained-cleanup}
use ebpf_nids.Loader.Startup.{Answers, Opt, Started, exited, running, initial, start}
use ebpf_nids.Loader.Startup.Safe.{IsReady, Outcome, cleanup-Gone, start-Outcome}
use ebpf_nids.Loader.Loop.{
  Tick, Loop, signalled, run_loop, Ran, ended, looping, leave_loop, continue_main, main,
}
use ebpf_nids.Loader.Loop.Keeps.{
  IsKept, anchors, IsFuelled, Keeps, Keeps-refl, Keeps-trans, signals-Keeps, iteration-Keeps,
  Keeps-Squares,
}

abbrev pub AllFuelled : List Tick → Type 0
AllFuelled [] = Unit {0}
AllFuelled (t ∷ ts) = IsFuelled t × AllFuelled ts

-- The loop gives a result, and from the one state to the other the calls balance.
abbrev pub Runs : Loop → Option Loop → Type 0
Runs l o =
    (l' : Loop) × (es : List Effect) × (o ≡ some l')
    × (l'.made ≡ l.made ++ es)
    × Keeps l.state es l'.state

-- A loop that has made `es` more calls and is continued.
Runs-trans :
    (l m : Loop) (es : List Effect) (o : Option Loop)
    → m.made ≡ l.made ++ es
    → Keeps l.state es m.state
    → Runs m o
    → Runs l o
Runs-trans l m es o made k (l', fs, done, made', k') = (
  l',
  es ++ fs,
  done,
  made' ∙ ap (λ xs. xs ++ fs) made ∙ append_assoc l.made es fs,
  Keeps-trans l.state m.state l'.state es fs k k',
)

run_loop-Keeps :
    (ts : List Tick) (l : Loop) → AllFuelled ts → IsValid l.state.cfg → Runs l (run_loop l ts)
unfolding run_loop
run_loop-Keeps [] l f v = (l, [], refl, sym (append-nil l.made), Keeps-refl l.state v)
run_loop-Keeps (t ∷ ts) l f v =
    let m = signalled l t.signals in
    let k = signals-Keeps l.state t.signals v in
    elim (Bool-cases m.state.exiting) [
      | inl stop ↦ (m, [], rw (stop, run_loop) refl, sym (append-nil l.made), k)
      | inr go ↦
          let (n, es, done, made, kn) = iteration-Keeps t m f.0 k.kept.config in
          let rest = run_loop-Keeps ts n f.1 kn.kept.config in
          rw (go, run_loop)
            (rw done (
              Runs-trans l n es (run_loop n ts) made
                (Keeps-trans l.state m.state n.state [] es k kn) rest))
    ]

-- Ended: nothing is held or left. Still in the loop: what the loop began with stands.
abbrev pub Final : Ran → Type 0
Final (ended status s es) = Gone es s
Final (looping l) = Squares initial l.made l.state × IsReady l.state

leave_loop-Final :
    (ok : Bool) (l : Loop)
    → Squares initial l.made l.state
    → IsReady l.state
    → Final (leave_loop ok l)
unfolding leave_loop
leave_loop-Final ok l q ready =
    if_both Final l.state.exiting (cleanup-Gone ok l.state l.made q (λ h. ready.interface))
      (q, ready)

-- What a program does behind its loop frees the cache that the loop has left, each entry once.
abbrev pub Frees : Loop → Ran → Type 0
Frees l (ended status s es) =
    (last : List Effect) × (es ≡ l.made ++ last) × (freed last ≡ l.state.cache_head)
Frees l (looping l') = l' ≡ l

leave_loop-Frees : (ok : Bool) (l : Loop) → Frees l (leave_loop ok l)
unfolding leave_loop
leave_loop-Frees ok l =
    if_both (Frees l) l.state.exiting ((cleanup ok l.state).1, refl, freed-cleanup ok l.state) refl

kept-IsReady : (s t : State) → IsReady s → IsKept s t → IsReady t
kept-IsReady s t r k = record {
  ring_open = ap (λ a. a.rb) k.same ∙ r.ring_open;
  skeleton_open = ap (λ a. a.skel) k.same ∙ r.skeleton_open;
  attached = ap (λ a. a.xdp_attached) k.same ∙ r.attached;
  interface = subst (λ n. 0 < n) (sym (ap (λ a. a.ifindex) k.same)) r.interface;
  serving = λ e. r.serving (sym (ap (λ a. a.server_fd) k.same) ∙ e);
  config = k.config;
}

-- The result comes from the start, or from a state that the loop comes to.
abbrev pub Comes : Started → List Tick → Ran → Type 0
Comes (exited status s es) ts r = r ≡ ended status s es
Comes (running s es) ts r =
    (l : Loop) × (run_loop (record { state = s; last_stats_ts = 0; made = es }) ts ≡ some l)
    × Frees l r

abbrev Finishes : Started → List Tick → Option Ran → Type 0
Finishes st ts o = (r : Ran) × (o ≡ some r) × Final r × Comes st ts r

continue_main-Finishes :
    (ok : Bool) (st : Started) (ts : List Tick)
    → Outcome st
    → AllFuelled ts
    → Finishes st ts (continue_main ok st ts)
unfolding continue_main
continue_main-Finishes ok (exited status s es) ts o f = (ended status s es, refl, o, refl)
continue_main-Finishes ok (running s es) ts (q, ready) f =
    let l : Loop = record { state = s; last_stats_ts = 0; made = es } in
    let (l', fs, done, made, k) = run_loop-Keeps ts l f ready.config in
    let q' : Squares initial l'.made l'.state =
      subst (λ xs. Squares initial xs l'.state) (sym made)
        (Squares-trans initial s l'.state es fs q (Keeps-Squares s fs l'.state k)) in
    (
      leave_loop ok l',
      rw done refl,
      leave_loop-Final ok l' q' (kept-IsReady s l'.state ready k.kept),
      (l', done, leave_loop-Frees ok l'),
    )

-- Whatever the options, the file, the signals and the answers of the system, where the kernel's
-- iterations of the statistics map are finite, the program comes to an end or is still in its loop.
-- At its end it holds nothing: each descriptor, the ring buffer, the skeleton and the log was given
-- back as often as it was acquired; the kernel was asked to detach the program just where and in the
-- mode that it was attached in, once, so that it is still attached only if the kernel refused; no
-- file of the socket is left; and behind the loop the cache is freed, each entry once. In its loop,
-- what it began the loop with stands, and every resource that it acquired is held or was given back.
pub main-Finishes :
    (a : Answers) (args : List Opt) (ts : List Tick)
    → AllFuelled ts
    → Finishes (start a args) ts (main a args ts)
unfolding main
main-Finishes a args ts f =
    continue_main-Finishes a.detach_ok (start a args) ts (start-Outcome a args) f

-- After any number of rounds, reloads and signals, `cleanup` gives back what stood when the loop began,
-- by the names that it had then.
pub record Restores (s : State) (es : List Effect) (s' : State) : Type 0 where
  pub requests :
      (i mode : ℕ) → holds (program i mode) s ≡ detached true i mode es + detached false i mode es
  pub file : (path : Bytes) → bound path (serves path s.server_fd s.cfg.socket_path) es ≡ false
  pub nothing : (r : Resource) → holds r s' ≡ 0

holds-anchors :
    (s t : State) (i mode : ℕ)
    → anchors t ≡ anchors s
    → account (program i mode) t ≡ holds (program i mode) s
unfolding account holds
holds-anchors s t i mode e =
    ap
      (λ a. if a.xdp_attached && (a.ifindex == i && detach_flags a.xdp_flags == mode) then 1 else 0)
      e

-- From a valid configuration and an interface that was found, where the kernel's iterations of the
-- statistics map are finite: through any number of rounds, reloads and signals the names of what the
-- loop began with and the configuration's validity stay. So `cleanup` after them, whatever the kernel answers, asks it to
-- detach the program from the interface and in the mode that the loop began with, and no other, takes
-- away the file of the socket that the loop began with, and holds nothing.
pub run_loop-anchored :
    (ok : Bool) (ts : List Tick) (l : Loop)
    → AllFuelled ts
    → IsValid l.state.cfg
    → 0 < l.state.ifindex
    → (l' : Loop) × (run_loop l ts ≡ some l')
      × (anchors l'.state ≡ anchors l.state)
      × IsValid l'.state.cfg
      × Restores l.state (cleanup ok l'.state).1 (cleanup ok l'.state).0
unfolding account holds cleanup serves
run_loop-anchored ok ts l f v found =
    let (l', es, done, made, k) = run_loop-Keeps ts l f v in
    let w : l'.state.xdp_attached ≡ true → 0 < l'.state.ifindex =
      λ h. subst (λ n. 0 < n) (sym (ap (λ a. a.ifindex) k.kept.same)) found in
    let last = (cleanup ok l'.state).1 in
    (
      l',
      done,
      k.kept.same,
      k.kept.config,
      record {
        requests = λ i mode. omega (
          arith,
          holds-anchors l.state l'.state i mode k.kept.same,
          cleanup-Balanced ok l'.state w (program i mode),
          gained-cleanup ok l'.state (program i mode),
          cleanup-holds ok l'.state (program i mode) w,
          lost_program i mode last,
        );
        file = λ p.
            ap (λ a. bound p (serves p a.server_fd a.socket_path) last) (sym k.kept.same)
            ∙ cleanup-Files ok l'.state p;
        nothing = λ r. cleanup-holds ok l'.state r w;
      },
    )
