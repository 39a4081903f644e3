-- ===== src/Xdp/Firewall/Verdict.antt =====
-- What `xdp_firewall` does with each kind of packet.
use ebpf_nids.Prelude.{
  ℕ, ◌≤◌, ◌≡◌, refl, Bool, true, false, not, ◌&&◌, inl, inr, some, arith, ltb, ◌==◌, length, get_or,
  if◌then◌else◌, Bool-cases,
}
use ebpf_nids.Kernel.{Kernel, Maps}
use ebpf_nids.Xdp.Packet.{Bytes, field16, field32, load_within, load16_within, load32_within}
use ebpf_nids.Xdp.Firewall.{
  drop, pass, is_blocked, count_packet, syn_step, scan_step, inspect_tcp, xdp_firewall,
}

-- A packet, as its bytes say.
pub data Kind : Type 0 where
  not_ip : Kind
  ip : ℕ → ℕ → Kind
  short_tcp : ℕ → ℕ → Kind
  tcp : ℕ → ℕ → ℕ → ℕ → Kind

unfoldable pub tcp_kind : Bytes → ℕ → ℕ → Kind
tcp_kind pkt src dst =
    if ltb (length pkt) 54
    then short_tcp src dst
    else tcp src dst (field16 pkt 36) (get_or pkt 47 0)

-- IPv4 in Ethernet with both headers whole, and TCP where the protocol field is 6: addresses, and
-- for TCP the destination port and the flags.
unfoldable pub classify : Bytes → Kind
unfolding tcp_kind
classify pkt =
    if not (ltb (length pkt) 34) && field16 pkt 12 == 0x0800
    then (if get_or pkt 23 0 == 6
        then tcp_kind pkt (field32 pkt 26) (field32 pkt 30)
        else ip (field32 pkt 26) (field32 pkt 30))
    else not_ip

module _ (k : Kernel) where
  -- What is to happen to a packet of a source that is not blocked.
  unfoldable pub passed : Maps k → ℕ → ℕ → ℕ → Kind → Maps k
  passed m size syn_time scan_time not_ip = m
  passed m size syn_time scan_time (short_tcp src dst) = m
  passed m size syn_time scan_time (ip src dst) = (count_packet k m src size).1
  passed m size syn_time scan_time (tcp src dst port flags) =
      (count_packet k
        (scan_step k (syn_step k m flags src dst syn_time) flags src dst port scan_time) src size).1

  unfoldable pub blocked_kind : k.blacklist.State → Kind → Bool
  blocked_kind b not_ip = false
  blocked_kind b (ip src dst) = is_blocked k.blacklist b src
  blocked_kind b (short_tcp src dst) = is_blocked k.blacklist b src
  blocked_kind b (tcp src dst port flags) = is_blocked k.blacklist b src

  inspect_tcp_lem :
      (m : Maps k) (pkt : Bytes) (src dst syn_time scan_time : ℕ)
      → inspect_tcp k m pkt src dst syn_time scan_time
        ≡ some (pass, passed m (length pkt) syn_time scan_time (tcp_kind pkt src dst))
  unfolding inspect_tcp passed tcp_kind
  inspect_tcp_lem m pkt src dst t u = elim (Bool-cases (ltb (length pkt) 54)) [
    | inl short ↦ rw short refl
    | inr whole ↦
        rw whole
          (rw (load16_within pkt 36 (ground arith)) (rw (load_within pkt 47 (ground arith)) refl))
  ]

  pub blocked-tcp_kind :
      (m : Maps k) (pkt : Bytes) (src dst : ℕ)
      → blocked_kind m.blacklist (tcp_kind pkt src dst) ≡ is_blocked k.blacklist m.blacklist src
  unfolding blocked_kind tcp_kind
  blocked-tcp_kind m pkt src dst = elim (Bool-cases (ltb (length pkt) 54)) [
    | inl short ↦ rw short refl
    | inr whole ↦ rw whole refl
  ]

  abbrev Outcome : Maps k → Bytes → ℕ → ℕ → Type 0
  Outcome m pkt t u =
      xdp_firewall k m pkt t u
      ≡ some (
          if blocked_kind m.blacklist (classify pkt)
          then (drop, m)
          else (pass, passed m (length pkt) t u (classify pkt)))

  headers_short :
      (m : Maps k) (pkt : Bytes) (t u : ℕ) → ltb (length pkt) 34 ≡ true → Outcome m pkt t u
  unfolding xdp_firewall classify blocked_kind passed
  headers_short m pkt t u short = elim (Bool-cases (ltb (length pkt) 14)) [
    | inl none_whole ↦ rw none_whole (rw short refl)
    | inr ethernet ↦ rw ethernet (
        rw (load16_within pkt 12 (ground arith)) (elim (Bool-cases (field16 pkt 12 == 0x0800)) [
          | inl ipv4 ↦ rw ipv4 (rw short refl)
          | inr other ↦ rw other (rw short refl)
        ]))
  ]

  abbrev Step : Maps k → Bytes → ℕ → ℕ → Type 0
  Step m pkt t u =
      let src = field32 pkt 26 in
      let dst = field32 pkt 30 in
      let kind = if get_or pkt 23 0 == 6 then tcp_kind pkt src dst else ip src dst in
      (if is_blocked k.blacklist m.blacklist src
        then some (drop, m)
        else if get_or pkt 23 0 == 6
        then inspect_tcp k m pkt src dst t u
        else some (count_packet k m src (length pkt)))
      ≡ some (
          if blocked_kind m.blacklist kind
          then (drop, m)
          else (pass, passed m (length pkt) t u kind))

  ip_step : (m : Maps k) (pkt : Bytes) (t u : ℕ) → Step m pkt t u
  unfolding count_packet
  ip_step m pkt t u =
      let src = field32 pkt 26 in
      let dst = field32 pkt 30 in
      elim (Bool-cases (get_or pkt 23 0 == 6)) [
        | inl six ↦ rw six (
            rw (blocked-tcp_kind m pkt src dst) (
              rw (inspect_tcp_lem m pkt src dst t u)
                (elim (Bool-cases (is_blocked k.blacklist m.blacklist src)) [
                  | inl hit ↦ rw hit refl
                  | inr miss ↦ rw miss refl
                ])))
        | inr other ↦ rw other (
            unfold blocked_kind passed in
            elim (Bool-cases (is_blocked k.blacklist m.blacklist src)) [
              | inl hit ↦ rw hit refl
              | inr miss ↦ rw miss refl
            ])
      ]

  headers_whole :
      (m : Maps k) (pkt : Bytes) (t u : ℕ) → ltb (length pkt) 34 ≡ false → Outcome m pkt t u
  unfolding xdp_firewall classify count_packet
  headers_whole m pkt t u whole =
      let fits : 34 ≤ length pkt = ground arith in
      let ethernet : ltb (length pkt) 14 ≡ false = ground arith in
      rw ethernet (
        rw (load16_within pkt 12 (omega arith)) (elim (Bool-cases (field16 pkt 12 == 0x0800)) [
          | inr other ↦ rw other (rw whole (unfold blocked_kind passed in refl))
          | inl ipv4 ↦ rw ipv4 (
              rw whole (
                rw (load32_within pkt 26 (omega arith)) (
                  rw (load32_within pkt 30 (omega arith))
                    (rw (load_within pkt 23 (omega arith)) (ip_step m pkt t u)))))
        ]))

  -- The program never reads past the end of a packet. It drops exactly the packets with whole
  -- Ethernet and IPv4 headers whose source is in the blacklist with value 1, and changes no map for
  -- one. A packet that is not IPv4, or has no room for its TCP header, passes and changes no map;
  -- any other goes through the two detectors (TCP only) and is counted.
  pub xdp_firewall_lem :
      (m : Maps k) (pkt : Bytes) (syn_time scan_time : ℕ)
      → xdp_firewall k m pkt syn_time scan_time
        ≡ some (
            if blocked_kind m.blacklist (classify pkt)
            then (drop, m)
            else (pass, passed m (length pkt) syn_time scan_time (classify pkt)))
  xdp_firewall_lem m pkt t u = elim (Bool-cases (ltb (length pkt) 34)) [
    | inl short ↦ headers_short m pkt t u short
    | inr whole ↦ headers_whole m pkt t u whole
  ]
