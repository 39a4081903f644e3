-- ===== src/Loader/Clients.antt =====
-- The client slots of project_submit/ebpf_control/src/loader.c: `init_clients`, `accept_clients`,
-- `close_client` and `broadcast_json_line`. The answers of the kernel (`accept`, `send`) are
-- arguments; the descriptors that the code closes are returned.
pub mod Conserve
pub mod Delivery
use ebpf_nids.Prelude.{
  ℕ, zero, suc, Bool, true, false, ◌||◌, Option, none, some, List, [], ◌∷◌, ◌++◌, take, replicate,
  ltb, ◌==◌, if◌then◌else◌,
}
use ebpf_nids.Prelude.Text.{Bytes}

abbrev pub max_clients : ℕ
max_clients = 16

-- `client_fds`: `none` is -1, the one negative value that the code stores.
abbrev pub Slots : Type 0
Slots = List (Option ℕ)

unfoldable pub init_clients : Slots
init_clients = replicate max_clients none

-- What a call of `accept` returns. (EAGAIN and EWOULDBLOCK are one value on Linux.)
pub data Accepted : Type 0 where
  client : ℕ → Accepted
  again failed : Accepted

-- The loop over the slots: the first free one takes the descriptor.
unfoldable pub store_client : Slots → ℕ → Option Slots
store_client [] cfd = none
store_client (none ∷ fds) cfd = some (some cfd ∷ fds)
store_client (some fd ∷ fds) cfd = elim (store_client fds cfd) [
  | some fds' ↦ some (some fd ∷ fds')
  | none ↦ none
]

-- The slots, and the descriptors closed.
abbrev pub Served : Type 0
Served = Slots × List ℕ

admit : Slots → ℕ → Option Slots → Served
admit fds cfd (some fds') = (fds', [])
admit fds cfd none = (fds, cfd ∷ [])

-- The loop, on what `accept` returns at each call. It ends at the first call with no connection; so
-- it does at the end of the list, which stands for EAGAIN.
unfoldable pub accept_clients : Slots → List Accepted → Served
unfolding admit
accept_clients fds [] = (fds, [])
accept_clients fds (again ∷ calls) = (fds, [])
accept_clients fds (failed ∷ calls) = (fds, [])
accept_clients fds (client cfd ∷ calls) =
    let now = admit fds cfd (store_client fds cfd) in
    let later = accept_clients now.0 calls in (later.0, now.1 ++ later.1)

-- `close_client(i)`, on the slot.
unfoldable pub close_client : Option ℕ → Option ℕ × List ℕ
close_client none = (none, [])
close_client (some fd) = (none, fd ∷ [])

-- What a call of `send` returns: the number of bytes that it took, EAGAIN, or another error.
pub data Sent : Type 0 where
  took : ℕ → Sent
  busy broken : Sent

-- The bytes that reach the client's stream.
unfoldable pub delivered : Bytes → Sent → Bytes
delivered json (took n) = take n json
delivered json busy = []
delivered json broken = []

after_send : Option ℕ → Sent → Option ℕ × List ℕ
unfolding close_client
after_send slot broken = close_client slot
after_send slot _ = (slot, [])

-- The loop over the slots; `send` is what the kernel answers for each descriptor. The result has
-- the slots, the descriptors closed, and the bytes that each client got, by descriptor.
pub record Sending : Type 0 where
  pub slots : Slots
  pub closed : List ℕ
  pub streams : List (ℕ × Bytes)

unfoldable pub broadcast_json_line : (ℕ → Sent) → Bytes → Slots → Sending
unfolding after_send delivered
broadcast_json_line send json [] = record { slots = []; closed = []; streams = [] }
broadcast_json_line send json (none ∷ fds) =
    let rest = broadcast_json_line send json fds in record rest { slots = none ∷ rest.slots }
broadcast_json_line send json (some fd ∷ fds) =
    let rest = broadcast_json_line send json fds in
    let slot = after_send (some fd) (send fd) in
    record {
      slots = slot.0 ∷ rest.slots;
      closed = slot.1 ++ rest.closed;
      streams = (fd, delivered json (send fd)) ∷ rest.streams;
    }
