-- ===== src/Xdp/Firewall.antt =====
-- `xdp_firewall`, the XDP entry point of project_submit/ebpf_control/src/xdp_blacklist.bpf.c.
pub mod Verdict
pub mod Totals
use ebpf_nids.Prelude.{
  ℕ, ◌/◌, ◌%◌, Bool, true, false, not, ◌&&◌, Option, none, some, ltb, ◌==◌, length, if◌then◌else◌,
  ◌>>=◌,
}
use ebpf_nids.Kernel.{Kernel, Maps, HashMap}
use ebpf_nids.Xdp.Packet.{Bytes, load, load16, load32}
use ebpf_nids.Xdp.Flow.{update_flow_stats}
use ebpf_nids.Xdp.Syn.{check_syn_flood}
use ebpf_nids.Xdp.Scan.{check_port_scan}

-- XDP_DROP and XDP_PASS.
pub data Action : Type 0 where
  drop pass : Action

-- `tcp->syn` and `tcp->ack`, bits of the fourteenth byte of the TCP header.
abbrev pub syn_bit : ℕ → Bool
syn_bit flags = flags / 2 % 2 == 1

abbrev pub ack_bit : ℕ → Bool
ack_bit flags = flags / 16 % 2 == 1

-- `blocked && *blocked == 1`
unfoldable pub is_blocked : (h : HashMap ℕ) → h.State → ℕ → Bool
is_blocked h m src_ip = elim (h.lookup m src_ip) [ some v ↦ v == 1 | none ↦ false ]

module _ (k : Kernel) where
  -- Step 3 of the program, which ends it.
  unfoldable pub count_packet : Maps k → ℕ → ℕ → Action × Maps k
  count_packet m src_ip size =
      (pass, record m { flow_stats = update_flow_stats k.flow_stats m.flow_stats src_ip size })

  unfoldable pub syn_step : Maps k → ℕ → ℕ → ℕ → ℕ → Maps k
  syn_step m flags src_ip dst_ip now =
      let s =
        check_syn_flood k.syn_counter k.alert_rb (m.syn_counter, m.alert_rb) src_ip dst_ip now in
      if syn_bit flags && not (ack_bit flags)
      then record m { syn_counter = s.0; alert_rb = s.1 }
      else m

  unfoldable pub scan_step : Maps k → ℕ → ℕ → ℕ → ℕ → ℕ → Maps k
  scan_step m flags src_ip dst_ip dst_port now =
      let s =
        check_port_scan k.port_scan_map k.alert_rb (m.port_scan_map, m.alert_rb) src_ip dst_ip
          dst_port now in
      if syn_bit flags then record m { port_scan_map = s.0; alert_rb = s.1 } else m

  -- Step 2 and what follows it, for a TCP packet.
  unfoldable pub inspect_tcp : Maps k → Bytes → ℕ → ℕ → ℕ → ℕ → Option (Action × Maps k)
  unfolding count_packet syn_step scan_step
  inspect_tcp m pkt src_ip dst_ip syn_time scan_time =
      if ltb (length pkt) 54 then some (pass, m) else do
        dst_port ← load16 pkt 36
        flags ← load pkt 47
        let m' = syn_step m flags src_ip dst_ip syn_time
        let m'' = scan_step m' flags src_ip dst_ip dst_port scan_time
        some (count_packet m'' src_ip (length pkt))

  -- The program on one packet. `syn_time` and `scan_time` are what `bpf_ktime_get_ns` returns where
  -- each detector reads it; `none` is an access past the end of the packet.
  unfoldable pub xdp_firewall : Maps k → Bytes → ℕ → ℕ → Option (Action × Maps k)
  unfolding inspect_tcp is_blocked
  xdp_firewall m pkt syn_time scan_time = if ltb (length pkt) 14 then some (pass, m) else do
    h_proto ← load16 pkt 12
    if not (h_proto == 0x0800)
        then some (pass, m)
        else if ltb (length pkt) 34
        then some (pass, m)
        else do
          src_ip ← load32 pkt 26
          dst_ip ← load32 pkt 30
          if is_blocked k.blacklist m.blacklist src_ip then some (drop, m) else do
            protocol ← load pkt 23
            if protocol == 6
                then inspect_tcp m pkt src_ip dst_ip syn_time scan_time
                else some (count_packet m src_ip (length pkt))
