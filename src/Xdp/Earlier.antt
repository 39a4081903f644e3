-- ===== src/Xdp/Earlier.antt =====
-- examples/c/ebpf/xdp_blacklist.bpf.c, an earlier state of the data plane. Its maps and its three
-- helper functions are those of project_submit/ebpf_control/src/xdp_blacklist.bpf.c to the letter,
-- so they are not repeated here; its entry point also reads the source port.
pub mod Same
use ebpf_nids.Prelude.{ℕ, Bool, not, ◌&&◌, Option, some, ltb, ◌==◌, length, if◌then◌else◌, ◌>>=◌}
use ebpf_nids.Kernel.{Kernel, Maps}
use ebpf_nids.Xdp.Packet.{Bytes, load, load16, load32}
use ebpf_nids.Xdp.Firewall.{Action, drop, pass, is_blocked, count_packet, syn_step, scan_step}

module _ (k : Kernel) where
  unfoldable pub earlier_inspect : Maps k → Bytes → ℕ → ℕ → ℕ → ℕ → Option (Action × Maps k)
  unfolding count_packet syn_step scan_step
  earlier_inspect m pkt src_ip dst_ip syn_time scan_time =
      if ltb (length pkt) 54 then some (pass, m) else do
        src_port ← load16 pkt 34
        dst_port ← load16 pkt 36
        flags ← load pkt 47
        let m' = syn_step k m flags src_ip dst_ip syn_time
        let m'' = scan_step k m' flags src_ip dst_ip dst_port scan_time
        some (count_packet k m'' src_ip (length pkt))

  unfoldable pub earlier_firewall : Maps k → Bytes → ℕ → ℕ → Option (Action × Maps k)
  unfolding earlier_inspect is_blocked
  earlier_firewall m pkt syn_time scan_time = if ltb (length pkt) 14 then some (pass, m) else do
    h_proto ← load16 pkt 12
    if not (h_proto == 0x0800)
        then some (pass, m)
        else if ltb (length pkt) 34
        then some (pass, m)
        else do
          src_ip ← load32 pkt 26
          dst_ip ← load32 pkt 30
          if is_blocked k.blacklist m.blacklist src_ip then some (drop, m) else do
            protocol ← load pkt 23
            if protocol == 6
                then earlier_inspect m pkt src_ip dst_ip syn_time scan_time
                else some (count_packet k m src_ip (length pkt))
