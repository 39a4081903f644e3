-- ===== src/Xdp/Parse.antt =====
-- The first programs of the project: examples/c/xdp_parse_ip.bpf.c, which prints the source address
-- of each IPv4 packet, and examples/c/xdp_count.bpf.c, which counts packets.
pub mod Prints
use ebpf_nids.Prelude.{
  ℕ, Option, none, some, List, [], ◌∷◌, not, ltb, ◌==◌, length, if◌then◌else◌, ◌>>=◌,
}
use ebpf_nids.Kernel.{add64}
use ebpf_nids.Xdp.Packet.{Bytes, load16, load32}
use ebpf_nids.Xdp.Firewall.{Action, pass}

-- `xdp_parse_ip`: what it returns, and the addresses that it prints.
unfoldable pub xdp_parse_ip : Bytes → Option (Action × List ℕ)
xdp_parse_ip pkt = if ltb (length pkt) 14 then some (pass, []) else do
  h_proto ← load16 pkt 12
  if not (h_proto == 0x0800)
      then some (pass, [])
      else if ltb (length pkt) 34
      then some (pass, [])
      else do src_ip ← load32 pkt 26; some (pass, src_ip ∷ [])

-- `xdp_count`, by the counter in the array map, if the lookup finds it.
unfoldable pub xdp_count : Option ℕ → Action × Option ℕ
xdp_count none = (pass, none)
xdp_count (some count) = (pass, some (add64 count 1))

-- The counter after a number of packets.
unfoldable pub count_packets : ℕ → Option ℕ → Option ℕ
unfolding xdp_count
count_packets ℕ.zero c = c
count_packets (ℕ.suc n) c = count_packets n (xdp_count c).1
