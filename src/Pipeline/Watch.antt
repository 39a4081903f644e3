-- ===== src/Pipeline/Watch.antt =====
-- What a source that is watched is to be reported for, by its packets alone. The modules below show
-- that each packet of xdp_firewall of project_submit/ebpf_control/src/xdp_blacklist.bpf.c puts just
-- that into the ring buffer.
pub mod Adding
pub mod Detectors
pub mod Packets
use ebpf_nids.Prelude.{
  ℕ, ◌≤◌, ◌≡◌, Bool, not, ◌&&◌, Option, none, some, List, [], ◌∷◌, ◌++◌, ◌==◌, length,
  if◌then◌else◌,
}
use ebpf_nids.Kernel.{Kernel, Maps, AlertEvent, syn_threshold, submit}
use ebpf_nids.Xdp.Packet.{Bytes}
use ebpf_nids.Xdp.Syn.{syn_alert}
use ebpf_nids.Xdp.Syn.Period.{next_count}
use ebpf_nids.Xdp.Scan.{scan_alert}
use ebpf_nids.Xdp.Scan.Refine.{reports, remember, Knows}
use ebpf_nids.Xdp.Firewall.{syn_bit, ack_bit}
use ebpf_nids.Xdp.Firewall.Verdict.{Kind, tcp, classify, blocked_kind}
use ebpf_nids.Pipeline.Due.{about}

-- What is remembered of a source: its SYN packets since the last report, and the low ports that it
-- has probed since the last report.
pub record Watched : Type 0 where
  pub count : ℕ
  pub ports : List ℕ

-- A packet with the SYN flag: where it goes, and whether it has no ACK flag.
pub record SynPacket : Type 0 where
  pub dst_ip : ℕ
  pub dst_port : ℕ
  pub fresh : Bool

-- The SYN packets of a source.
unfoldable pub syn_of : ℕ → Kind → Option SynPacket
syn_of src (tcp src' dst port flags) =
    if src' == src && syn_bit flags
    then some (record { dst_ip = dst; dst_port = port; fresh = not (ack_bit flags) })
    else none
syn_of src _ = none

unfoldable pub next_watched : Watched → Option SynPacket → Watched
next_watched w none = w
next_watched w (some p) = record {
  count = if p.fresh then next_count w.count else w.count;
  ports = remember w.ports p.dst_port;
}

-- The reports that a packet is due: of a flood at each 101st SYN packet without ACK, and of a scan
-- at each probe that makes the ports more than 20.
unfoldable pub due : ℕ → Watched → Option SynPacket → ℕ → ℕ → List AlertEvent
due src w none t u = []
due src w (some p) t u =
    (if p.fresh && w.count == syn_threshold then syn_alert src p.dst_ip t ∷ [] else [])
    ++ (if reports w.ports p.dst_port then scan_alert src p.dst_ip u ∷ [] else [])

module _ (k : Kernel) where
  -- The maps hold what is remembered of the source.
  pub record Tracks (m : Maps k) (src : ℕ) (w : Watched) : Type 0 where
    pub counter : k.syn_counter.lookup m.syn_counter src ≡ some w.count
    pub low : w.count ≤ syn_threshold
    pub bitmap : Knows k.port_scan_map k.alert_rb m.port_scan_map src w.ports

  -- At most `n` events went into the ring buffer, `es` are those about `src`, and `w` is remembered
  -- of it after them.
  pub record Raises (n : ℕ) (m : Maps k) (src : ℕ) (es : List AlertEvent) (w : Watched)
      (m' : Maps k) : Type 0 where
    pub events : List AlertEvent
    pub queued : m'.alert_rb ≡ submit k.alert_rb m.alert_rb events
    pub few : length events ≤ n
    pub concerning : about src events ≡ es
    pub tracks : Tracks m' src w

  -- The SYN packet of the source that a packet is, unless the source is blocked.
  unfoldable pub syn_packet : k.blacklist.State → ℕ → Bytes → Option SynPacket
  syn_packet b src pkt = if blocked_kind k b (classify pkt) then none else syn_of src (classify pkt)
