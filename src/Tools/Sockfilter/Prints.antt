-- ===== src/Tools/Sockfilter/Prints.antt =====
-- What a packet that passes examples/c/sockfilter.bpf.c leads to in the output of
-- examples/c/sockfilter.c.
use ebpf_nids.Prelude.{
  ℕ, ◌+◌, ◌*◌, ◌/◌, ◌%◌, ◌≤◌, ◌<◌, ◌≡◌, ◌≢◌, refl, ap, ◌∙◌, true, not, Option, some, List, [], ◌∷◌,
  ◌++◌, arith, length, length-append, take_all, get_or, ltb, ◌==◌,
}
use ebpf_nids.Prelude.Text.{Bytes}
use ebpf_nids.Prelude.Decimal.{length-decimal_byte}
use ebpf_nids.Xdp.Packet.{field16, field32}
use ebpf_nids.Loader.Json.{inet_ntop}
use ebpf_nids.Tools.Sockfilter.{SoEvent, SkBuff, ip_is_fragment, fill, socket_handler}
use ebpf_nids.Tools.Sockfilter.Cli.{ipproto_mapping, ntohl, ntohs, ltoa, Line, handle_event}

length-inet_ntop : (ip : ℕ) → length (inet_ntop ip) ≤ 15
unfolding inet_ntop
length-inet_ntop ip = omega (
  arith,
  length-append {0},
  length-decimal_byte (ip % 256) (omega arith),
  length-decimal_byte (ip / 0x100 % 256) (omega arith),
  length-decimal_byte (ip / 0x1_0000 % 256) (omega arith),
  length-decimal_byte (ip / 0x100_0000 % 256) (omega arith),
)

-- The address is written as `inet_ntop` writes it, and it fits the buffer.
ltoa-ntohl : (ip : ℕ) → ltoa (ntohl ip) ≡ inet_ntop ip
unfolding ltoa ntohl inet_ntop
ltoa-ntohl ip =
    let x = ntohl ip in
    let a : x / 0x100_0000 % 256 ≡ ip % 256 = omega arith in
    let b : x / 0x1_0000 % 256 ≡ ip / 0x100 % 256 = omega arith in
    let c : x / 0x100 % 256 ≡ ip / 0x1_0000 % 256 = omega arith in
    let d : x % 256 ≡ ip / 0x100_0000 % 256 = omega arith in
    rw a (rw b (rw c (rw d (take_all 15 (inet_ntop ip) (length-inet_ntop ip)))))

-- Where the transport header starts.
abbrev pub transport : SkBuff → ℕ
transport skb = 14 + get_or skb.packet 14 0 % 16 * 4

-- An IPv4 packet for this host, not a fragment, with its header and its ports whole.
pub record IsWatched (skb : SkBuff) : Type 0 where
  pub header : 34 ≤ length skb.packet
  pub whole : transport skb + 4 ≤ length skb.packet
  pub ipv4 : field16 skb.packet 12 ≡ 0x0800
  pub unfragmented : field16 skb.packet 20 % 0x4000 ≡ 0
  pub not_gre : get_or skb.packet 23 0 ≢ 47
  pub host : skb.pkt_type ≡ 0

-- What is to be printed of a packet.
unfoldable pub packet_line : SkBuff → Bytes → Line
packet_line skb ifname = record {
  ifname = ifname;
  protocol = ipproto_mapping (get_or skb.packet 23 0);
  src = inet_ntop (field32 skb.packet 26);
  src_port = field16 skb.packet (transport skb);
  dst = inet_ntop (field32 skb.packet 30);
  dst_port = field16 skb.packet (transport skb + 2);
}

module _ (skb : SkBuff) where
  byte_eq : (i j : ℕ) → i ≡ j → get_or skb.packet i 0 ≡ get_or skb.packet j 0
  byte_eq i j e = ap (λ (n : ℕ). get_or skb.packet n 0) e

  loaded :
      (i len : ℕ)
      → i + len ≤ length skb.packet
      → 1 ≤ len
      → get_or (skb.load_bytes i len) 0 0 ≡ get_or skb.packet i 0
  loaded i len h k = skb.load_lem i len 0 h (omega (arith, k)) ∙ byte_eq (i + 0) i (omega arith)

  loaded16 :
      (i : ℕ) → i + 2 ≤ length skb.packet → field16 (skb.load_bytes i 2) 0 ≡ field16 skb.packet i
  loaded16 i h = omega (arith, loaded i 2 h (omega arith), skb.load_lem i 2 1 h (omega arith))

  loaded32 :
      (i : ℕ) → i + 4 ≤ length skb.packet → field32 (skb.load_bytes i 4) 0 ≡ field32 skb.packet i
  loaded32 i h = omega (
    arith,
    loaded i 4 h (omega arith),
    skb.load_lem i 4 1 h (omega arith),
    skb.load_lem i 4 2 h (omega arith),
    skb.load_lem i 4 3 h (omega arith),
  )

  first_port : (i : ℕ) → ntohs (field32 skb.packet i % 0x1_0000) ≡ field16 skb.packet i
  unfolding ntohs
  first_port i = omega (arith, skb.byte i, skb.byte (i + 1), skb.byte (i + 2), skb.byte (i + 3))

  second_port :
      (i : ℕ) → ntohs (field32 skb.packet i / 0x1_0000 % 0x1_0000) ≡ field16 skb.packet (i + 2)
  unfolding ntohs
  second_port i = omega (
    arith,
    byte_eq (i + 2 + 1) (i + 3) (omega arith),
    skb.byte i,
    skb.byte (i + 1),
    skb.byte (i + 2),
    skb.byte (i + 3),
  )

  -- The sample of such a packet.
  abbrev sample : SoEvent
  sample = record {
    src_addr = field32 skb.packet 26;
    dst_addr = field32 skb.packet 30;
    ports = field32 skb.packet (transport skb);
    ip_proto = get_or skb.packet 23 0;
    pkt_type = skb.pkt_type;
    ifindex = skb.ifindex;
  }

  fill-sample : (e : SoEvent) → IsWatched skb → e.ip_proto < 256 → fill skb e 14 ≡ sample
  unfolding fill
  fill-sample e w clean =
      let tag : not (get_or skb.packet 23 0 == 47) ≡ true = ground (arith, w.not_gre) in
      let proto : e.ip_proto / 256 * 256 + get_or skb.packet 23 0 ≡ get_or skb.packet 23 0 =
        omega (arith, clean) in
      rw (loaded 23 1 (omega (arith, w.header)) (omega arith), fill)
        (rw (loaded 14 1 (omega (arith, w.header)) (omega arith)) (
          rw proto (
            rw tag (
              rw (loaded32 26 (omega (arith, w.header))) (
                rw (loaded32 30 (omega (arith, w.header)))
                  (rw (loaded32 (transport skb) w.whole) refl))))))

  handled :
      (e : SoEvent) (rb : List SoEvent)
      → IsWatched skb
      → e.ip_proto < 256
      → socket_handler skb (some e) rb ≡ (skb.len, rb ++ (sample ∷ []))
  unfolding socket_handler ip_is_fragment
  handled e rb w clean =
      let ip : (field16 (skb.load_bytes 12 2) 0 == 0x0800) ≡ true =
        ground (arith, loaded16 12 (omega (arith, w.header)), w.ipv4) in
      let one : (field16 (skb.load_bytes 20 2) 0 % 0x4000 == 0) ≡ true =
        ground (arith, loaded16 20 (omega (arith, w.header)), w.unfragmented) in
      rw ip (rw one (ap (λ (s : SoEvent). (skb.len, rb ++ (s ∷ []))) (fill-sample e w clean)))

  printed :
      (ipproto_max : ℕ) (if_indextoname : ℕ → Option Bytes) (ifname : Bytes)
      → IsWatched skb
      → 256 ≤ ipproto_max
      → if_indextoname skb.ifindex ≡ some ifname
      → handle_event ipproto_max if_indextoname sample ≡ some (packet_line skb ifname)
  unfolding handle_event packet_line
  printed ipproto_max if_indextoname ifname w big named =
      let host : (skb.pkt_type == 0) ≡ true = ground (arith, w.host) in
      let known : ltb (get_or skb.packet 23 0) ipproto_max ≡ true =
        ground (arith, skb.byte 23, big) in
      rw host (
        rw known (
          rw named (
            rw (ltoa-ntohl (field32 skb.packet 26)) (
              rw (ltoa-ntohl (field32 skb.packet 30))
                (rw (first_port (transport skb)) (rw (second_port (transport skb)) refl))))))

  -- A whole, unfragmented IPv4 packet for this host whose protocol is not GRE passes the filter with
  -- its length, if there is room in the ring buffer, and leads to one line. It names the interface and the
  -- protocol, and has the packet's addresses, written as `inet_ntop` writes them, and its ports. The
  -- reserved memory holds a number below 256 where the protocol goes, IPPROTO_MAX is at least 256,
  -- and the interface has a name.
  pub watched_line :
      (e : SoEvent) (rb : List SoEvent) (ipproto_max : ℕ) (if_indextoname : ℕ → Option Bytes)
      (ifname : Bytes)
      → IsWatched skb
      → e.ip_proto < 256
      → 256 ≤ ipproto_max
      → if_indextoname skb.ifindex ≡ some ifname
      → (s : SoEvent) × (socket_handler skb (some e) rb ≡ (skb.len, rb ++ (s ∷ [])))
        × (handle_event ipproto_max if_indextoname s ≡ some (packet_line skb ifname))
  watched_line e rb ipproto_max if_indextoname ifname w clean big named =
      (sample, handled e rb w clean, printed ipproto_max if_indextoname ifname w big named)
