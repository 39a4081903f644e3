-- ===== src/Pipeline/System/Delivery.antt =====
-- Every alert that a source is due reaches the client once, in order, however packets and the
-- rounds of the loop interleave.
use mathlib.Core.List.{map, map-append}
use mathlib.Core.Path.{subst}
use ebpf_nids.Prelude.{
  ℕ, ◌≤◌, ◌≡◌, refl, sym, ap, ◌∙◌, true, some, List, [], ◌∷◌, ◌++◌, append-nil, append_assoc, arith,
  length, Bool-cases, inl, inr,
}
use ebpf_nids.Kernel.{Kernel, Maps, AlertEvent, RingBuffer}
use ebpf_nids.Xdp.Firewall.Verdict.{classify, blocked_kind, xdp_firewall_lem}
use ebpf_nids.Xdp.Firewall.Totals.{Arrival, after, after-blacklist}
use ebpf_nids.Loader.Json.{alert_text}
use ebpf_nids.Pipeline.{HasRoom, events-submit, stream, IsClient}
use ebpf_nids.Pipeline.Due.{about, about-append}
use ebpf_nids.Pipeline.Watch.{Watched, next_watched, due, Tracks, syn_packet}
use ebpf_nids.Pipeline.Watch.Packets.{packet-Reports}
use ebpf_nids.Pipeline.Handed.{alert_lines}
use ebpf_nids.Pipeline.System.Rounds.{Serves, step-Round}
use ebpf_nids.Pipeline.System.{pending, Consumer, System, Happening, arrives, round, step, run}

module _ (src : ℕ) where
  -- What waits now is what waited before, with some events behind it.
  raised_concerned :
      (all waited waits raised raised_due later : List AlertEvent)
      → waits ≡ waited ++ raised
      → about src raised ≡ raised_due
      → about src all ≡ about src waits ++ later
      → about src all ≡ about src waited ++ (raised_due ++ later)
  raised_concerned all waited waits raised raised_due later e d h =
      h
      ∙ ap (λ x. about src x ++ later) e
      ∙ ap (λ x. x ++ later) (about-append src waited raised ∙ ap (◌++◌ (about src waited)) d)
      ∙ append_assoc (about src waited) raised_due later

  -- Some of what waited has been taken.
  taken_concerned :
      (taken got last waited waits later : List AlertEvent)
      → taken ++ waits ≡ waited
      → about src (got ++ last) ≡ about src waits ++ later
      → about src ((taken ++ got) ++ last) ≡ about src waited ++ later
  taken_concerned taken got last waited waits later e h =
      ap (about src) (append_assoc taken got last)
      ∙ about-append src taken (got ++ last)
      ∙ ap (◌++◌ (about src taken)) h
      ∙ sym (append_assoc (about src taken) (about src waits) later)
      ∙ ap (λ x. x ++ later) (sym (about-append src taken waits) ∙ ap (about src) e)

-- There is room for two more events, whichever they are.
abbrev pub HasRoomForTwo : (r : RingBuffer) → r.State → Type 0
HasRoomForTwo r q =
    (e e' : AlertEvent) → ((r.output q e).0 ≡ true) × ((r.output (r.output q e).1 e').0 ≡ true)

HasRoomForTwo-HasRoom :
    (r : RingBuffer) (q : r.State) (es : List AlertEvent)
    → HasRoomForTwo r q
    → length es ≤ 2
    → HasRoom r q es
unfolding HasRoom
HasRoomForTwo-HasRoom r q [] h few = tt
HasRoomForTwo-HasRoom r q (e ∷ []) h few = ((h e e).0, tt)
HasRoomForTwo-HasRoom r q (e ∷ e' ∷ []) h few = ((h e e').0, ((h e e').1, tt))
HasRoomForTwo-HasRoom r q (e ∷ e' ∷ e'' ∷ es) h few = absurd (omega arith)

-- The packets among what happens.
unfoldable pub arrivals : List Happening → List Arrival
arrivals [] = []
arrivals (arrives p ∷ xs) = p ∷ arrivals xs
arrivals (round n t ∷ xs) = arrivals xs

module _ (k : Kernel) where
  -- The reports that a source's packets are due, in their order.
  unfoldable pub due_of : k.blacklist.State → ℕ → Watched → List Arrival → List AlertEvent
  due_of b src w [] = []
  due_of b src w (p ∷ ps) =
      let q = syn_packet k b src p.packet in
      due src w q p.syn_time p.scan_time ++ due_of b src (next_watched w q) ps

module _ (k : Kernel) (c : Consumer k.alert_rb) (fd : ℕ) where
  -- The ring buffer has room when a packet arrives, and a round serves the client.
  abbrev pub Allows : System k → Happening → Type 0
  Allows s (arrives p) = HasRoomForTwo k.alert_rb s.maps.alert_rb
  Allows s (round n t) = Serves fd t

  unfoldable pub AllAllow : System k → List Happening → Type 0
  AllAllow s [] = Unit {0}
  AllAllow s (x ∷ xs) = Allows s x × ((s' : System k) → step k c s x ≡ some s' → AllAllow s' xs)

  step-arrives :
      (s : System k) (p : Arrival)
      → step k c s (arrives p) ≡ some (record s { maps = after k s.maps p })
  unfolding step
  step-arrives s p =
      rw (xdp_firewall_lem k s.maps p.packet p.syn_time p.scan_time)
        (elim (Bool-cases (blocked_kind k s.maps.blacklist (classify p.packet))) [
          | inl hit ↦ rw hit refl
          | inr miss ↦ rw miss refl
        ])

  -- The run comes to a state, and what was handed to the client and what still waits in the ring buffer are, as
  -- far as the source is concerned, what waited before and what the packets were due.
  abbrev pub Delivers : System k → ℕ → Watched → List Happening → Type 0
  Delivers s src w xs =
      (s' : System k) × (got : List AlertEvent) × (run k c s xs ≡ some s')
      × (alert_lines (stream fd s'.loop.state.publisher.streams)
          ≡ alert_lines (stream fd s.loop.state.publisher.streams) ++ map alert_text got)
      × (about src (got ++ pending k s')
          ≡ about src (pending k s) ++ due_of k s.maps.blacklist src w (arrivals xs))

  -- Packets of any sources arrive, and between them the loop goes through rounds, each polling some
  -- of the events that wait, with new clients, reloads, signals and statistics reports as they come.
  -- Where the maps hold what is remembered of a source, the ring buffer has room for two events
  -- when a packet arrives, and a client has its slot and room on its connection: the run comes to a state. The alert
  -- lines on the client's connection grow by one line for each event that was polled, whole and in
  -- order. Of these events and those that still wait, the ones about the source are those that
  -- waited before and then just what the source's packets are due, each once and in order: a flood
  -- report for each 101st SYN packet without ACK, and a scan report for each probe that makes the
  -- low ports probed more than 20, while the source is not blocked.
  pub alerts_delivered :
      (s : System k) (src : ℕ) (w : Watched) (xs : List Happening)
      → Tracks k s.maps src w
      → s.loop.state.rb ≡ true
      → IsClient fd s.loop.state.publisher
      → AllAllow s xs
      → Delivers s src w xs
  unfolding run AllAllow arrivals due_of
  alerts_delivered s src w [] h on cl a = (s, [], refl, sym (append-nil _), sym (append-nil _))
  alerts_delivered s src w (arrives p ∷ xs) h on cl a =
      let q = syn_packet k s.maps.blacklist src p.packet in
      let r = packet-Reports k s.maps src w p h in
      let t : System k = record s { maps = after k s.maps p } in
      let ran = step-arrives s p in
      let (s', got, done, lines, concerned) =
        alerts_delivered t src (next_watched w q) xs r.tracks on cl (a.1 t ran) in
      (
        s',
        got,
        rw ran done,
        lines,
        raised_concerned src (got ++ pending k s') (pending k s) (pending k t) r.events _ _
            (ap k.alert_rb.events r.queued
              ∙ events-submit k.alert_rb s.maps.alert_rb r.events
                  (HasRoomForTwo-HasRoom k.alert_rb s.maps.alert_rb r.events a.0 r.few))
            r.concerning
            (concerned
              ∙ ap (λ b. about src (pending k t) ++ due_of k b src (next_watched w q) (arrivals xs))
                  (after-blacklist k s.maps p)),
      )
  alerts_delivered s src w (round n t ∷ xs) h on cl a =
      let (t', es, ran, r) = step-Round k c fd s n t on cl a.0 in
      let h' : Tracks k t'.maps src w =
        subst (λ m. Tracks k m src w) (sym r.alone)
          (record { counter = h.counter; low = h.low; bitmap = h.bitmap }) in
      let (s', got, done, lines, concerned) =
        alerts_delivered t' src w xs h' r.on r.hands.client (a.1 t' ran) in
      (
        s',
        es ++ got,
        rw ran done,
        lines
            ∙ ap (λ x. x ++ map alert_text got) r.hands.lines_of
            ∙ append_assoc _ (map alert_text es) (map alert_text got)
            ∙ ap (◌++◌ _) (sym (map-append alert_text es got)),
        taken_concerned src es got (pending k s') (pending k s) (pending k t') _ r.taken (
            concerned
            ∙ ap
                (λ (m : Maps k).
                  about src (pending k t') ++ due_of k m.blacklist src w (arrivals xs))
                r.alone),
      )
