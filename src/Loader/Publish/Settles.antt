-- ===== src/Loader/Publish/Settles.antt =====
-- Publishing loses no descriptor of the client table.
use ebpf_nids.Prelude.{ℕ, ◌+◌, ◌≡◌, refl, Option, none, some, arith}
use ebpf_nids.Prelude.Text.{Bytes}
use ebpf_nids.Kernel.{AlertEvent}
use ebpf_nids.Loader.Json.{alert_json}
use ebpf_nids.Loader.Clients.{broadcast_json_line}
use ebpf_nids.Loader.Clients.Conserve.{count, held, count-append}
use ebpf_nids.Loader.Clients.Delivery.{broadcast-Delivers}
use ebpf_nids.Loader.Publish.{Publisher, Network, publish, handle_alert}

-- No descriptor of the client table is lost: it is in a slot or among the closed ones.
abbrev pub Settles : Publisher → Publisher → Type 0
Settles p p' =
    (fd : ℕ)
    → count fd (held p'.slots) + count fd p'.closed ≡ count fd (held p.slots) + count fd p.closed

pub publish-Settles :
    (net : Network) (p : Publisher) (json : Bytes) → Settles p (publish net p json)
unfolding publish
publish-Settles net p json fd =
    let r = broadcast_json_line (net p.broadcasts) json p.slots in
    let d = broadcast-Delivers (net p.broadcasts) json p.slots in
    ground (arith, count-append fd p.closed r.closed, d.keeps fd, d.closes fd)

pub handle_alert-Settles :
    (net : Network) (p : Publisher) (e : Option AlertEvent) (size : ℕ)
    → Settles p (handle_alert net p e size)
unfolding handle_alert
handle_alert-Settles net p none size fd = refl
handle_alert-Settles net p (some e) size fd =
    ground (arith, publish-Settles net p (alert_json e) fd)
