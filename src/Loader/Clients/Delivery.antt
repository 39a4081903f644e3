-- ===== src/Loader/Clients/Delivery.antt =====
-- What a broadcast does to each client.
use mathlib.Core.List.{map}
use ebpf_nids.Prelude.{
  ℕ, suc, ◌<◌, ◌≡◌, refl, ap, Bool, true, false, none, some, [], ◌∷◌, arith, length, if◌then◌else◌,
  length-take,
}
use ebpf_nids.Prelude.Text.{Bytes}
use ebpf_nids.Loader.Clients.{Slots, Sent, took, broken, delivered, Sending, broadcast_json_line}
use ebpf_nids.Loader.Clients.Conserve.{count, held}

abbrev pub is_broken : Sent → Bool
is_broken broken = true
is_broken _ = false

pub record Delivers (send : ℕ → Sent) (json : Bytes) (fds : Slots) (r : Sending) : Type 0 where
  pub size : length r.slots ≡ length fds
  pub keeps :
      (fd : ℕ) → count fd (held r.slots) ≡ (if is_broken (send fd) then 0 else count fd (held fds))
  pub closes :
      (fd : ℕ) → count fd r.closed ≡ (if is_broken (send fd) then count fd (held fds) else 0)
  pub streams : r.streams ≡ map (λ fd. (fd, delivered json (send fd))) (held fds)

-- A broadcast sends the line once to each client that has a slot, in the order of the slots; it
-- closes exactly the clients for which `send` failed with another error than EAGAIN, each once,
-- and frees their slots; and all other clients keep theirs.
pub broadcast-Delivers :
    (send : ℕ → Sent) (json : Bytes) (fds : Slots)
    → Delivers send json fds (broadcast_json_line send json fds)
unfolding broadcast_json_line held count
broadcast-Delivers send json [] = record {
  size = refl;
  keeps = λ fd. ground arith;
  closes = λ fd. ground arith;
  streams = refl;
}
broadcast-Delivers send json (none ∷ fds) =
    let rest = broadcast-Delivers send json fds in
    record {
      size = ap suc rest.size;
      keeps = rest.keeps;
      closes = rest.closes;
      streams = rest.streams;
    }
broadcast-Delivers send json (some x ∷ fds) =
    let rest = broadcast-Delivers send json fds in
    record {
      size = ap suc rest.size;
      keeps = λ fd. ground (arith, rest.keeps fd);
      closes = λ fd. ground (arith, rest.closes fd);
      streams = ap (◌∷◌ (x, delivered json (send x))) rest.streams;
    }

-- A `send` that takes fewer bytes than the line has cuts the line short on that client's stream.
pub delivered_short :
    (json : Bytes) (n : ℕ) → n < length json → length (delivered json (took n)) < length json
unfolding delivered
delivered_short json n h = omega (arith, length-take n json)
