-- ===== src/Pipeline.antt =====
-- From packets to clients: what check_syn_flood of project_submit/ebpf_control/src/xdp_blacklist.bpf.c
-- puts into the ring buffer, and what ring_buffer__poll in the loop of
-- project_submit/ebpf_control/src/loader.c makes of it on each client's connection.
pub mod Traffic
pub mod Flows
pub mod Due
pub mod Watch
pub mod Handed
pub mod System
mod Tests
use mathlib.Core.List.{map, foldl}
use ebpf_nids.Prelude.{
  ℕ, zero, suc, ◌+◌, ◌≤◌, ◌≡◌, refl, sym, ap, ◌∙◌, Bool, true, false, some, List, [], ◌∷◌, ◌++◌,
  append-nil, append_assoc, arith, length, length-take, take_all, ◌==◌, Bool-cases, inl, inr,
  if◌then◌else◌,
}
use ebpf_nids.Prelude.Text.{Bytes}
use ebpf_nids.Kernel.{AlertEvent, PerCpuHash, RingBuffer, syn_threshold, submit}
use ebpf_nids.Xdp.Syn.Period.{Syn, run_syns, expected, syn_flood_period}
use ebpf_nids.Loader.Json.{alert_text, alert_json, json_size}
use ebpf_nids.Loader.Json.Framing.{IsLine, alert_json-IsLine}
use ebpf_nids.Loader.Clients.{took, broken, delivered, broadcast_json_line}
use ebpf_nids.Loader.Clients.Conserve.{count, held}
use ebpf_nids.Loader.Clients.Delivery.{is_broken, broadcast-Delivers}
use ebpf_nids.Loader.Publish.{Publisher, Network, publish, alert_event_size, handle_alert}
use ebpf_nids.Loader.System.{State}
use ebpf_nids.Loader.Loop.{RingRecord, poll_step}

-- The pieces handed to one descriptor, in order.
unfoldable pub stream : ℕ → List (ℕ × Bytes) → List Bytes
stream fd [] = []
stream fd ((d, b) ∷ s) = if d == fd then b ∷ stream fd s else stream fd s

pub stream-append :
    (fd : ℕ) (a b : List (ℕ × Bytes)) → stream fd (a ++ b) ≡ stream fd a ++ stream fd b
unfolding stream
stream-append fd [] b = refl
stream-append fd ((d, x) ∷ a) b = elim (Bool-cases (d == fd)) [
  | inl same ↦ rw (same, stream) (ap (◌∷◌ x) (stream-append fd a b))
  | inr other ↦ rw (other, stream) (stream-append fd a b)
]

module _ (fd : ℕ) (f : ℕ → Bytes) where
  abbrev sent : List ℕ → List (ℕ × Bytes)
  sent = map (λ (d : ℕ). (d, f d))

  stream-absent : (fds : List ℕ) → count fd fds ≡ 0 → stream fd (sent fds) ≡ []
  unfolding stream count
  stream-absent [] e = refl
  stream-absent (d ∷ fds) e =
      let other : (d == fd) ≡ false = ground (arith, e) in
      rw (other, stream) (stream-absent fds (ground (arith, e)))

  stream-once : (fds : List ℕ) → count fd fds ≡ 1 → stream fd (sent fds) ≡ f fd ∷ []
  unfolding stream count
  stream-once [] e = absurd (omega (arith, e))
  stream-once (d ∷ fds) e = elim (Bool-cases (d == fd)) [
    | inl same ↦
        let equal : d ≡ fd = ground (arith, same) in
        rw (same, stream)
          (ap (λ (x : ℕ). f x ∷ stream fd (sent fds)) equal
            ∙ ap (◌∷◌ (f fd)) (stream-absent fds (ground (arith, e, same))))
    | inr other ↦ rw (other, stream) (stream-once fds (ground (arith, e, other)))
  ]

-- At each broadcast there is room for a whole message on the way to the client.
unfoldable pub TakesAll : Network → ℕ → Type 0
TakesAll net fd = (n : ℕ) → (m : ℕ) × (net n fd ≡ took m) × (json_size ≤ m)

-- The client has a slot.
unfoldable pub IsClient : ℕ → Publisher → Type 0
IsClient fd p = count fd (held p.slots) ≡ 1

length-alert_json : (e : AlertEvent) → length (alert_json e) ≤ 511
unfolding alert_json
length-alert_json e = omega (arith, length-take 511 (alert_text e))

-- A broadcast to a client that takes it whole.
pub publish-stream :
    (net : Network) (p : Publisher) (fd : ℕ) (json : Bytes)
    → TakesAll net fd
    → length json ≤ json_size
    → IsClient fd p
    → (stream fd (publish net p json).streams ≡ stream fd p.streams ++ (json ∷ []))
      × IsClient fd (publish net p json)
unfolding publish TakesAll IsClient delivered
publish-stream net p fd json takes fits client =
    let send = net p.broadcasts in
    let (m, took_m, room) = takes p.broadcasts in
    let d = broadcast-Delivers send json p.slots in
    let whole : delivered json (send fd) ≡ json =
      rw (took_m, delivered) (take_all m json (omega (arith, fits, room))) in
    let healthy : is_broken (send fd) ≡ false = rw took_m refl in
    (
      stream-append fd p.streams (broadcast_json_line send json p.slots).streams
          ∙ ap (λ (s : List Bytes). stream fd p.streams ++ s)
              (ap (stream fd) d.streams
                ∙ stream-once fd (λ (x : ℕ). delivered json (send x)) (held p.slots) client
                ∙ ap (λ (b : Bytes). b ∷ []) whole),
      d.keeps fd ∙ rw healthy client,
    )

-- The record in which the ring buffer hands out an event.
abbrev pub record_of : AlertEvent → RingRecord
record_of e = record { payload = some e; size = alert_event_size }

abbrev pub polled : Network → List AlertEvent → Publisher → Publisher
polled net es p =
    foldl (λ (q : Publisher) (r : RingRecord). handle_alert net q r.payload r.size) p
      (map record_of es)

pub polled-stream :
    (net : Network) (es : List AlertEvent) (p : Publisher) (fd : ℕ)
    → TakesAll net fd
    → IsClient fd p
    → (stream fd (polled net es p).streams ≡ stream fd p.streams ++ map alert_text es)
      × IsClient fd (polled net es p)
unfolding handle_alert
polled-stream net [] p fd takes client = (sym (append-nil (stream fd p.streams)), client)
polled-stream net (e ∷ es) p fd takes client =
    let (now, still) =
      publish-stream net p fd (alert_json e) takes (omega (arith, length-alert_json e)) client in
    let (later, after) = polled-stream net es (publish net p (alert_json e)) fd takes still in
    let text : alert_json e ≡ alert_text e = (alert_json-IsLine e).0 in
    (
      later
          ∙ ap (λ (s : List Bytes). s ++ map alert_text es) now
          ∙ append_assoc (stream fd p.streams) (alert_json e ∷ []) (map alert_text es)
          ∙ ap (λ (b : Bytes). stream fd p.streams ++ (b ∷ map alert_text es)) text,
      after,
    )

module _ (r : RingBuffer) where
  -- The ring buffer has room for each of the events.
  unfoldable pub HasRoom : r.State → List AlertEvent → Type 0
  HasRoom q [] = Unit {0}
  HasRoom q (e ∷ es) = ((r.output q e).0 ≡ true) × HasRoom (r.output q e).1 es

  pub events-submit :
      (q : r.State) (es : List AlertEvent)
      → HasRoom q es
      → r.events (submit r q es) ≡ r.events q ++ es
  unfolding HasRoom submit
  events-submit q [] h = sym (append-nil (r.events q))
  events-submit q (e ∷ es) h =
      let room = h.0 in
      let stored : r.events (r.output q e).1 ≡ r.events q ++ (e ∷ []) =
        ground (arith, r.events-output q e, room) in
      events-submit (r.output q e).1 es h.1
      ∙ ap (λ (x : List AlertEvent). x ++ es) stored
      ∙ append_assoc (r.events q) (e ∷ []) es

module _ (c : PerCpuHash) (r : RingBuffer) where
  -- A source whose counter stands at `count`, at most 100, sends SYN packets, the ring buffer has
  -- room for what they raise and is empty before them, and then the loader polls it. Each client
  -- that has a slot, and room on its connection, is handed the lines of the alerts that the packets are to raise, one for
  -- each 101st packet, whole and in order, and nothing else.
  pub alerts_reach_clients :
      (m : c.State) (q : r.State) (src count : ℕ) (ps : List Syn) (net : Network) (s : State)
      (fd : ℕ)
      → c.lookup m src ≡ some count
      → count ≤ syn_threshold
      → r.events q ≡ []
      → HasRoom r q (expected src count ps)
      → s.rb ≡ true
      → TakesAll net fd
      → IsClient fd s.publisher
      → let waiting = r.events (run_syns c r (m, q) src ps).1 in
        stream fd (poll_step net (map record_of waiting) s).publisher.streams
        ≡ stream fd s.publisher.streams ++ map alert_text (expected src count ps)
  unfolding poll_step
  alerts_reach_clients m q src count ps net s fd known low empty room set takes client =
      let (last, raised, many) = syn_flood_period c r m q src count ps known low in
      let waits : r.events (run_syns c r (m, q) src ps).1 ≡ expected src count ps =
        ap (λ (x : r.State). r.events x) raised
        ∙ events-submit r q (expected src count ps) room
        ∙ ap (λ (x : List AlertEvent). x ++ expected src count ps) empty in
      rw waits (rw set (polled-stream net (expected src count ps) s.publisher fd takes client).0)
