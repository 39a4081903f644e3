-- ===== src/Pipeline/System/Rounds.antt =====
-- What one round of the loop of project_submit/ebpf_control/src/loader.c does with the events that
-- wait in the ring buffer.
use mathlib.Core.List.{map, foldl}
use mathlib.Core.Path.{subst}
use ebpf_nids.Prelude.{
  ℕ, ◌+◌, ◌≡◌, refl, sym, ap, ◌∙◌, true, none, some, List, [], ◌++◌, if_both, append-nil, take,
  take-append-drop, leb, Bool-cases, inl, inr,
}
use ebpf_nids.Kernel.{Kernel, AlertEvent}
use ebpf_nids.Loader.Json.{alert_text}
use ebpf_nids.Loader.Clients.Conserve.{count, handed}
use ebpf_nids.Loader.Stats.{report_key}
use ebpf_nids.Loader.Stats.Visits.{Iterates-value, read_and_report_stats_lem}
use ebpf_nids.Loader.System.{State}
use ebpf_nids.Loader.Loop.{
  Tick, Loop, signalled, iteration, accept_step, reload_step, poll_step, stats_step, reporter,
}
use ebpf_nids.Loader.Loop.Keeps.{IsFuelled}
use ebpf_nids.Pipeline.{TakesAll, IsClient, record_of}
use ebpf_nids.Pipeline.Handed.{
  Hands, Hands-refl, Hands-trans, reported-Hands, accept_step-Hands, poll_step-Hands,
  reload_step-publisher, signals-publisher,
}
use ebpf_nids.Pipeline.System.{pending, Consumer, System, round, polling, consumed, step}

stats_step-Hands :
    (t : Tick) (s : State) (last fd : ℕ)
    → IsFuelled t
    → TakesAll t.world.net fd
    → IsClient fd s.publisher
    → (r : State × ℕ) × (stats_step t s last ≡ some r)
      × Hands fd s.publisher [] r.0.publisher
      × (r.0.rb ≡ s.rb)
unfolding stats_step
stats_step-Hands t s last fd f takes c =
    elim (Bool-cases (leb (last + s.cfg.stats_interval_sec) t.now)) [
      | inr early ↦ ((s, last), rw early refl, Hands-refl c, refl)
      | inl now ↦
          let interval = s.cfg.stats_interval_sec in
          let r = foldl (report_key t.world interval t.view) (reporter s) f.keys in
          (
            (record s { cache_head = r.cache; publisher = r.publisher }, t.now),
            rw now (
                rw
                  (read_and_report_stats_lem t.world interval t.view f.keys t.fuel (reporter s)
                    f.iterates f.enough)
                  refl),
            reported-Hands fd t.world interval t.view f.keys (reporter s) takes c,
            refl,
          )
    ]

-- A round in which the poll hands out these events.
iteration-Hands :
    (t : Tick) (l : Loop) (fd : ℕ) (es : List AlertEvent)
    → IsFuelled t
    → TakesAll t.world.net fd
    → count fd (handed t.calls) ≡ 0
    → l.state.rb ≡ true
    → IsClient fd l.state.publisher
    → t.polled ≡ map record_of es
    → (l' : Loop) × (iteration t l ≡ some l')
      × Hands fd l.state.publisher (map alert_text es) l'.state.publisher
      × (l'.state.rb ≡ true)
unfolding iteration
iteration-Hands t l fd es f takes other on c e =
    let a' = accept_step t.getfl t.calls l.state in
    let a = a'.0 in
    let ha = accept_step-Hands fd t.getfl t.calls l.state other c in
    let (pub_b, rb_b) = reload_step-publisher t.file t.fopen_ok a in
    let b = (reload_step t.file t.fopen_ok a).0 in
    let on_b : b.rb ≡ true = rb_b ∙ unfold accept_step in on in
    let hb : Hands fd l.state.publisher [] b.publisher =
      subst (Hands fd l.state.publisher []) (sym pub_b) ha in
    let p = poll_step t.world.net t.polled b in
    let hp : Hands fd b.publisher (map alert_text es) p.publisher =
      subst (λ x. Hands fd b.publisher (map alert_text es) (poll_step t.world.net x b).publisher)
        (sym e) (poll_step-Hands fd t.world.net es b on_b takes hb.client) in
    let (d, done, hd, rb_d) = stats_step-Hands t p l.last_stats_ts fd f takes hp.client in
    (
      record {
        state = d.0;
        last_stats_ts = d.1;
        made =
            l.made
            ++ ((accept_step t.getfl t.calls l.state).1 ++ (reload_step t.file t.fopen_ok a).1);
      },
      rw done refl,
      subst (λ x. Hands fd l.state.publisher x d.0.publisher) (append-nil _)
          (Hands-trans hb (Hands-trans hp hd)),
      rb_d ∙ unfold poll_step in if_both (λ (x : State). x.rb ≡ true) b.rb on_b on_b,
    )

-- In a round the statistics map can be gone through, the client's connection has room, and `accept`
-- does not return its descriptor.
pub record Serves (fd : ℕ) (t : Tick) : Type 0 where
  pub fuelled : IsFuelled t
  pub takes : TakesAll t.world.net fd
  pub others : count fd (handed t.calls) ≡ 0

module _ (k : Kernel) (c : Consumer k.alert_rb) (fd : ℕ) where
  -- A round hands these events to the client, from those that wait, and leaves all else in the maps alone.
  pub record Round (s : System k) (got : List AlertEvent) (s' : System k) : Type 0 where
    pub hands : Hands fd s.loop.state.publisher (map alert_text got) s'.loop.state.publisher
    pub on : s'.loop.state.rb ≡ true
    pub taken : got ++ pending k s' ≡ pending k s
    pub alone : s'.maps ≡ record s.maps { alert_rb = s'.maps.alert_rb }

  pub step-Round :
      (s : System k) (n : ℕ) (t : Tick)
      → s.loop.state.rb ≡ true
      → IsClient fd s.loop.state.publisher
      → Serves fd t
      → (s' : System k) × (got : List AlertEvent) × (step k c s (round n t) ≡ some s')
        × Round s got s'
  unfolding step
  step-Round s n t on cl v =
      let l = signalled s.loop t.signals in
      let (same, rb) = signals-publisher s.loop.state t.signals in
      let on_l : l.state.rb ≡ true = rb ∙ on in
      elim (Bool-cases l.state.exiting) [
        | inl stop ↦ (
          record s { loop = l },
          [],
          rw (stop, step) refl,
          record {
            hands = subst (Hands fd s.loop.state.publisher []) (sym same) (Hands-refl cl);
            on = on_l;
            taken = refl;
            alone = refl;
          },
        )
        | inr go ↦
            let es = take n (pending k s) in
            let (l', done, h, on') =
              iteration-Hands (polling k c s.maps n t) l fd es
                (record {
                  keys = v.fuelled.keys;
                  iterates =
                      Iterates-value t.view (k.flow_stats.lookup s.maps.flow_stats) none
                        v.fuelled.keys v.fuelled.iterates;
                  enough = v.fuelled.enough;
                })
                v.takes v.others on_l (subst (IsClient fd) (sym same) cl) refl in
            (
              record { maps = consumed k c s.maps n; loop = l' },
              es,
              rw (go, step) (rw done (rw on_l refl)),
              record {
                hands = subst (λ p. Hands fd p (map alert_text es) l'.state.publisher) same h;
                on = on';
                taken =
                    ap (◌++◌ es) (c.events-consume s.maps.alert_rb n)
                    ∙ take-append-drop n (pending k s);
                alone = refl;
              },
            )
      ]
