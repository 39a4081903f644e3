-- ===== src/Pipeline/Handed.antt =====
-- What each part of a round of the loop of project_submit/ebpf_control/src/loader.c hands to a
-- client: which of the lines on its connection report an alert.
use mathlib.Core.List.{map, foldl}
use ebpf_nids.Prelude.{
  ℕ, ◌≤◌, ◌≡◌, refl, sym, ap, ◌∙◌, Bool, true, false, Option, none, some, List, [], ◌∷◌, ◌++◌,
  append-nil, append_assoc, arith, ◌==◌, length, length-take, get_or, if◌then◌else◌, if_both,
  Bool-cases, Option-cases, inl, inr,
}
use ebpf_nids.Prelude.Text.{Bytes}
use ebpf_nids.Prelude.Int.{ℤ}
use ebpf_nids.Kernel.{AlertEvent}
use ebpf_nids.Loader.Config.{File}
use ebpf_nids.Loader.Config.Reload.{reload_config_runtime}
use ebpf_nids.Loader.Json.{FlowRate, alert_text, flow_text, flow_json}
use ebpf_nids.Loader.Clients.{Accepted}
use ebpf_nids.Loader.Clients.Conserve.{count, handed, accept_clients-Conserves, held-accept_clients}
use ebpf_nids.Loader.Publish.{Publisher, Network}
use ebpf_nids.Loader.Rates.{IpCache, report_flow_rate}
use ebpf_nids.Loader.Stats.{Reporter, World, MapView, announce, report_source, report_key}
use ebpf_nids.Loader.System.{State, Effect, Signal, sig_handler, sighup}
use ebpf_nids.Loader.Startup.Steps.{open_log_file-rest}
use ebpf_nids.Loader.Loop.{accept_step, reload_step, poll_step}
use ebpf_nids.Pipeline.{stream, TakesAll, IsClient, publish-stream, record_of, polled-stream}

-- The lines that report an alert: the tenth byte of a message tells its type.
unfoldable pub alert_lines : List Bytes → List Bytes
alert_lines [] = []
alert_lines (l ∷ ls) = if get_or l 9 0 == b'a' then l ∷ alert_lines ls else alert_lines ls

alert_lines-append : (a b : List Bytes) → alert_lines (a ++ b) ≡ alert_lines a ++ alert_lines b
unfolding alert_lines
alert_lines-append [] b = refl
alert_lines-append (l ∷ a) b = elim (Bool-cases (get_or l 9 0 == b'a')) [
  | inl same ↦ rw (same, alert_lines) (ap (◌∷◌ l) (alert_lines-append a b))
  | inr other ↦ rw (other, alert_lines) (alert_lines-append a b)
]

alert_lines-alert_text :
    (es : List AlertEvent) → alert_lines (map alert_text es) ≡ map alert_text es
unfolding alert_lines alert_text
alert_lines-alert_text [] = refl
alert_lines-alert_text (e ∷ es) = ap (◌∷◌ (alert_text e)) (alert_lines-alert_text es)

alert_lines-flow_json : (r : FlowRate) → alert_lines (flow_json r ∷ []) ≡ []
unfolding alert_lines flow_json flow_text
alert_lines-flow_json r = refl

pub length-flow_json : (r : FlowRate) → length (flow_json r) ≤ 511
unfolding flow_json
length-flow_json r = omega (arith, length-take 511 (flow_text r))

-- The client still has its slot, and these lines are the alerts that it has been handed since.
pub record Hands (fd : ℕ) (p : Publisher) (lines : List Bytes) (p' : Publisher) : Type 0 where
  pub lines_of : alert_lines (stream fd p'.streams) ≡ alert_lines (stream fd p.streams) ++ lines
  pub client : IsClient fd p'

module _ {fd : ℕ} where
  pub Hands-refl : {p : Publisher} → IsClient fd p → Hands fd p [] p
  Hands-refl c = record { lines_of = sym (append-nil _); client = c }

  pub Hands-trans :
      {p p' p'' : Publisher} {a b : List Bytes}
      → Hands fd p a p'
      → Hands fd p' b p''
      → Hands fd p (a ++ b) p''
  Hands-trans {a} {b} h k = record {
    lines_of = k.lines_of ∙ ap (λ x. x ++ b) h.lines_of ∙ append_assoc _ a b;
    client = k.client;
  }

  Hands-quiet : {p p' p'' : Publisher} → Hands fd p [] p' → Hands fd p' [] p'' → Hands fd p [] p''
  Hands-quiet h k = Hands-trans h k

module _ (fd : ℕ) where
  announce-Hands :
      (net : Network) (cache : List IpCache) (p : Publisher) (o : Option FlowRate)
      → TakesAll net fd
      → IsClient fd p
      → Hands fd p [] (announce net cache p o).publisher
  unfolding announce
  announce-Hands net cache p none takes c = Hands-refl c
  announce-Hands net cache p (some r) takes c =
      let (now, still) =
        publish-stream net p fd (flow_json r) takes (omega (arith, length-flow_json r)) c in
      record {
        lines_of =
            ap alert_lines now
            ∙ alert_lines-append (stream fd p.streams) (flow_json r ∷ [])
            ∙ ap (λ x. alert_lines (stream fd p.streams) ++ x) (alert_lines-flow_json r);
        client = still;
      }

  report_key-Hands :
      (w : World) (interval : ℕ) (m : MapView) (st : Reporter) (key : ℕ)
      → TakesAll w.net fd
      → IsClient fd st.publisher
      → Hands fd st.publisher [] (report_key w interval m st key).publisher
  unfolding report_key report_source
  report_key-Hands w interval m st key takes c = elim (Option-cases (m.value key)) [
    | inl e ↦ rw (e, report_key) (Hands-refl c)
    | inr (v, e) ↦
        rw (e, report_key)
          (let r = report_flow_rate interval (w.time key) (w.alloc key) st.cache key v in
            announce-Hands w.net r.0 st.publisher r.1 takes c)
  ]

  pub reported-Hands :
      (w : World) (interval : ℕ) (m : MapView) (ks : List ℕ) (st : Reporter)
      → TakesAll w.net fd
      → IsClient fd st.publisher
      → Hands fd st.publisher [] (foldl (report_key w interval m) st ks).publisher
  reported-Hands w interval m [] st takes c = Hands-refl c
  reported-Hands w interval m (k ∷ ks) st takes c =
      let h = report_key-Hands w interval m st k takes c in
      Hands-quiet h (reported-Hands w interval m ks (report_key w interval m st k) takes h.client)

  pub accept_step-Hands :
      (getfl : ℕ → ℤ) (calls : List Accepted) (s : State)
      → count fd (handed calls) ≡ 0
      → IsClient fd s.publisher
      → Hands fd s.publisher [] (accept_step getfl calls s).0.publisher
  unfolding accept_step IsClient
  accept_step-Hands getfl calls s other c =
      let keeps = held-accept_clients s.publisher.slots calls fd in
      let all = (accept_clients-Conserves s.publisher.slots calls).counts fd in
      record { lines_of = sym (append-nil _); client = omega (arith, keeps, all, other, c) }

  pub poll_step-Hands :
      (net : Network) (es : List AlertEvent) (s : State)
      → s.rb ≡ true
      → TakesAll net fd
      → IsClient fd s.publisher
      → Hands fd s.publisher (map alert_text es) (poll_step net (map record_of es) s).publisher
  unfolding poll_step
  poll_step-Hands net es s on takes c =
      let (now, still) = polled-stream net es s.publisher fd takes c in
      rw on (record {
        lines_of =
            ap alert_lines now
            ∙ alert_lines-append (stream fd s.publisher.streams) (map alert_text es)
            ∙ ap (λ x. alert_lines (stream fd s.publisher.streams) ++ x)
                (alert_lines-alert_text es);
        client = still;
      })

-- A reload and the signals touch neither the clients nor the ring buffer.
pub reload_step-publisher :
    (file : File) (ok : Bool) (s : State)
    → let t = (reload_step file ok s).0 in (t.publisher ≡ s.publisher) × (t.rb ≡ s.rb)
unfolding reload_step
reload_step-publisher file ok s =
    let P = λ (r : State × List Effect). (r.0.publisher ≡ s.publisher) × (r.0.rb ≡ s.rb) in
    let r = reload_config_runtime s.cfg file in
    let t = record s { cfg = r.cfg; reload_requested = false } in
    let (_, p, _, _, _, _, b) = open_log_file-rest ok t in
    if_both P s.reload_requested (if_both P r.reopen_log (p, b) (refl, refl)) (refl, refl)

pub signals-publisher :
    (s : State) (gs : List Signal)
    → let t = foldl sig_handler s gs in (t.publisher ≡ s.publisher) × (t.rb ≡ s.rb)
unfolding sig_handler
signals-publisher s [] = (refl, refl)
signals-publisher s (sighup ∷ gs) = signals-publisher (sig_handler s sighup) gs
signals-publisher s (g ∷ gs) = signals-publisher (sig_handler s g) gs
