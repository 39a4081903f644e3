-- ===== src/Loader/Publish.antt =====
-- Sending a line to the clients, and `handle_alert` of project_submit/ebpf_control/src/loader.c.
pub mod Settles
use ebpf_nids.Prelude.{ℕ, ◌+◌, Option, none, some, List, [], ◌++◌, ltb, if◌then◌else◌}
use ebpf_nids.Prelude.Text.{Bytes}
use ebpf_nids.Kernel.{AlertEvent}
use ebpf_nids.Loader.Clients.{Slots, Sent, broadcast_json_line}
use ebpf_nids.Loader.Json.{alert_json}

-- The client table with what has been done to it: the descriptors closed, the bytes handed to each
-- descriptor in order, and the number of broadcasts made.
pub record Publisher : Type 0 where
  pub slots : Slots
  pub closed : List ℕ
  pub streams : List (ℕ × Bytes)
  pub broadcasts : ℕ

-- What `send` answers: by the number of the broadcast, and the descriptor.
abbrev pub Network : Type 0
Network = ℕ → ℕ → Sent

unfoldable pub publish : Network → Publisher → Bytes → Publisher
publish net p json =
    let r = broadcast_json_line (net p.broadcasts) json p.slots in
    record {
      slots = r.slots;
      closed = p.closed ++ r.closed;
      streams = p.streams ++ r.streams;
      broadcasts = p.broadcasts + 1;
    }

-- `sizeof(struct alert_event)`: seven bytes of padding stand before the timestamp.
abbrev pub alert_event_size : ℕ
alert_event_size = 24

-- `data` is `none` for a null pointer; a record that is too short is ignored.
unfoldable pub handle_alert : Network → Publisher → Option AlertEvent → ℕ → Publisher
handle_alert net p none data_sz = p
handle_alert net p (some e) data_sz =
    if ltb data_sz alert_event_size then p else publish net p (alert_json e)
