-- ===== src/Xdp/Filter.antt =====
-- examples/c/xdp_blacklist.bpf.c, the first form of the data plane: the blacklist alone.
pub mod Agrees
use ebpf_nids.Prelude.{ℕ, Option, some, not, ltb, ◌==◌, length, if◌then◌else◌, ◌>>=◌}
use ebpf_nids.Kernel.{HashMap}
use ebpf_nids.Xdp.Packet.{Bytes, load16, load32}
use ebpf_nids.Xdp.Firewall.{Action, drop, pass, is_blocked}

-- `xdp_blacklist_filter`; `none` is an access past the end of the packet.
unfoldable pub xdp_blacklist_filter : (h : HashMap ℕ) → h.State → Bytes → Option Action
unfolding is_blocked
xdp_blacklist_filter h blacklist pkt = if ltb (length pkt) 14 then some pass else do
  h_proto ← load16 pkt 12
  if not (h_proto == 0x0800)
      then some pass
      else if ltb (length pkt) 34
      then some pass
      else do src_ip ← load32 pkt 26; if is_blocked h blacklist src_ip then some drop else some pass
