-- ===== src/Tools/Sockfilter.antt =====
-- examples/c/sockfilter.bpf.c, sockfilter.h and sockfilter.c, which print who talks to whom on an
-- interface: the filter here, its user side in the children.
pub mod Cli
pub mod Prints
use ebpf_nids.Prelude.{
  ℕ, ◌+◌, ◌*◌, ◌/◌, ◌%◌, ◌≤◌, ◌<◌, ◌≡◌, Bool, not, Option, none, some, List, [], ◌∷◌, ◌++◌, length,
  get_or, ◌==◌, if◌then◌else◌,
}
use ebpf_nids.Xdp.Packet.{Bytes, field16, field32}

-- `struct so_event`. `ports` is the union as the 32-bit number in memory.
pub record SoEvent : Type 0 where
  pub src_addr : ℕ
  pub dst_addr : ℕ
  pub ports : ℕ
  pub ip_proto : ℕ
  pub pkt_type : ℕ
  pub ifindex : ℕ

-- `struct __sk_buff` of a packet. `load_bytes` is what `bpf_skb_load_bytes` leaves in its buffer for
-- an offset and a length: the bytes of the packet there, if it has them. The code does not look at
-- what the helper returns.
pub record SkBuff : Type 0 where
  pub packet : Bytes
  pub pkt_type : ℕ
  pub ifindex : ℕ
  pub len : ℕ
  pub load_bytes : ℕ → ℕ → Bytes
  pub byte : (i : ℕ) → get_or packet i 0 < 256
  pub load_lem :
      (offset len i : ℕ)
      → offset + len ≤ length packet
      → i < len
      → get_or (load_bytes offset len) i 0 ≡ get_or packet (offset + i) 0

-- `ip_is_fragment`: the bits of `IP_MF | IP_OFFSET`, which are the lowest fourteen.
unfoldable pub ip_is_fragment : SkBuff → ℕ → ℕ
ip_is_fragment skb nhoff = field16 (skb.load_bytes (nhoff + 6) 2) 0 % 0x4000

-- What is written to the sample. The protocol is one byte of a 32-bit field, whose other bytes stay.
unfoldable pub fill : SkBuff → SoEvent → ℕ → SoEvent
fill skb e nhoff =
    let ip_proto = e.ip_proto / 256 * 256 + get_or (skb.load_bytes (nhoff + 9) 1) 0 0 in
    let verlen = get_or (skb.load_bytes (nhoff + 0) 1) 0 0 in
    let addressed = not (ip_proto == 47) in
    record {
      src_addr = if addressed then field32 (skb.load_bytes (nhoff + 12) 4) 0 else e.src_addr;
      dst_addr = if addressed then field32 (skb.load_bytes (nhoff + 16) 4) 0 else e.dst_addr;
      ports = field32 (skb.load_bytes (nhoff + verlen % 16 * 4) 4) 0;
      ip_proto = ip_proto;
      pkt_type = skb.pkt_type;
      ifindex = skb.ifindex;
    }

-- `socket_handler`: what it returns and the ring buffer. `reserved` is the memory that
-- `bpf_ringbuf_reserve` gives, if there is any.
unfoldable pub socket_handler : SkBuff → Option SoEvent → List SoEvent → ℕ × List SoEvent
unfolding ip_is_fragment fill
socket_handler skb reserved rb =
    let nhoff : ℕ = 14 in
    if not (field16 (skb.load_bytes 12 2) 0 == 0x0800)
    then (0, rb)
    else if not (ip_is_fragment skb nhoff == 0)
    then (0, rb)
    else elim reserved [ none ↦ (0, rb) | some e ↦ (skb.len, rb ++ (fill skb e nhoff ∷ [])) ]
