-- ===== src/Xdp/Earlier/Same.antt =====
-- That the earlier and the present data plane do the same.
use ebpf_nids.Prelude.{
  ℕ, ◌≡◌, refl, not, Option, some, ltb, ◌==◌, length, if◌then◌else◌, ◌>>=◌, arith, Bool-cases, inl,
  inr,
}
use ebpf_nids.Kernel.{Kernel, Maps}
use ebpf_nids.Xdp.Packet.{Bytes, load, load16, load32, load16_within}
use ebpf_nids.Xdp.Firewall.{Action, drop, pass, is_blocked, count_packet, inspect_tcp, xdp_firewall}
use ebpf_nids.Xdp.Earlier.{earlier_inspect, earlier_firewall}

module _ (k : Kernel) where
  abbrev Inspect : Type 0
  Inspect = Maps k → Bytes → ℕ → ℕ → ℕ → ℕ → Option (Action × Maps k)

  -- The entry point around what is done with a TCP packet.
  abbrev around : Inspect → Maps k → Bytes → ℕ → ℕ → Option (Action × Maps k)
  around inspect m pkt syn_time scan_time = if ltb (length pkt) 14 then some (pass, m) else do
    h_proto ← load16 pkt 12
    if not (h_proto == 0x0800)
        then some (pass, m)
        else if ltb (length pkt) 34
        then some (pass, m)
        else do
          src_ip ← load32 pkt 26
          dst_ip ← load32 pkt 30
          if is_blocked k.blacklist m.blacklist src_ip then some (drop, m) else do
            protocol ← load pkt 23
            if protocol == 6
                then inspect m pkt src_ip dst_ip syn_time scan_time
                else some (count_packet k m src_ip (length pkt))

  inspect_same :
      (m : Maps k) (pkt : Bytes) (src dst t u : ℕ)
      → earlier_inspect k m pkt src dst t u ≡ inspect_tcp k m pkt src dst t u
  unfolding earlier_inspect inspect_tcp
  inspect_same m pkt src dst t u = elim (Bool-cases (ltb (length pkt) 54)) [
    | inl short ↦ rw short refl
    | inr whole ↦ rw whole (rw (load16_within pkt 34 (ground arith)) refl)
  ]

  -- On every packet the earlier data plane gives the verdict and makes the changes to the maps that
  -- the present one does: the source port that it reads too is never past the end of the packet.
  pub earlier_firewall-same :
      (m : Maps k) (pkt : Bytes) (syn_time scan_time : ℕ)
      → earlier_firewall k m pkt syn_time scan_time ≡ xdp_firewall k m pkt syn_time scan_time
  unfolding earlier_firewall xdp_firewall
  earlier_firewall-same m pkt t u =
      λ i. around (λ m' p s d t' u'. inspect_same m' p s d t' u' i) m pkt t u
