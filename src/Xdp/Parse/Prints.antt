-- ===== src/Xdp/Parse/Prints.antt =====
-- What examples/c/xdp_parse_ip.bpf.c prints and examples/c/xdp_count.bpf.c counts.
use ebpf_nids.Prelude.{
  ℕ, zero, suc, ◌+◌, ◌%◌, ◌^◌, ◌≤◌, ◌<◌, ◌≡◌, refl, ap, ◌∙◌, true, false, not, ◌&&◌, some, List, [],
  ◌∷◌, arith, ltb, ◌==◌, length, get_or, Bool-cases, inl, inr,
}
use ebpf_nids.Kernel.{add64}
use ebpf_nids.Xdp.Packet.{Bytes, field16, field32, load16_within, load32_within}
use ebpf_nids.Xdp.Firewall.{pass}
use ebpf_nids.Xdp.Firewall.Verdict.{Kind, not_ip, ip, short_tcp, tcp, tcp_kind, classify}
use ebpf_nids.Xdp.Parse.{xdp_parse_ip, count_packets}

-- The source of an IPv4 packet, by the classification of the full data plane.
unfoldable pub sources : Kind → List ℕ
sources not_ip = []
sources (ip src dst) = src ∷ []
sources (short_tcp src dst) = src ∷ []
sources (tcp src dst port flags) = src ∷ []

sources-tcp_kind : (pkt : Bytes) (src dst : ℕ) → sources (tcp_kind pkt src dst) ≡ src ∷ []
unfolding sources tcp_kind
sources-tcp_kind pkt src dst = elim (Bool-cases (ltb (length pkt) 54)) [
  | inl short ↦ rw short refl
  | inr whole ↦ rw whole refl
]

sources-whole :
    (pkt : Bytes)
    → ltb (length pkt) 34 ≡ false
    → (field16 pkt 12 == 0x0800) ≡ true
    → sources (classify pkt) ≡ field32 pkt 26 ∷ []
unfolding classify
sources-whole pkt whole ipv4 = rw whole (
    rw ipv4 (elim (Bool-cases (get_or pkt 23 0 == 6)) [
      | inl six ↦ rw six (sources-tcp_kind pkt (field32 pkt 26) (field32 pkt 30))
      | inr other ↦ rw other (unfold sources in refl)
    ]))

sources-other :
    (pkt : Bytes)
    → (not (ltb (length pkt) 34) && field16 pkt 12 == 0x0800) ≡ false
    → sources (classify pkt) ≡ []
unfolding classify
sources-other pkt other = rw other (unfold sources in refl)

-- The program lets every packet pass and reads nothing past its end, and prints the source address
-- of exactly those packets that the full data plane takes for IPv4.
pub xdp_parse_ip_lem : (pkt : Bytes) → xdp_parse_ip pkt ≡ some (pass, sources (classify pkt))
unfolding xdp_parse_ip
xdp_parse_ip_lem pkt = elim (Bool-cases (ltb (length pkt) 34)) [
  | inl short ↦ rw (sources-other pkt (rw short refl)) (elim (Bool-cases (ltb (length pkt) 14)) [
    | inl s ↦ rw s refl
    | inr e ↦ rw e (
        rw (load16_within pkt 12 (ground arith)) (elim (Bool-cases (field16 pkt 12 == 0x0800)) [
          | inl ipv4 ↦ rw ipv4 (rw short refl)
          | inr other ↦ rw other refl
        ]))
  ])
  | inr whole ↦
      let fits : 34 ≤ length pkt = ground arith in
      let ethernet : ltb (length pkt) 14 ≡ false = ground arith in
      elim (Bool-cases (field16 pkt 12 == 0x0800)) [
        | inr other ↦
            rw (sources-other pkt (rw (whole, other) refl))
              (rw ethernet (rw (load16_within pkt 12 (omega arith)) (rw other refl)))
        | inl ipv4 ↦ rw (sources-whole pkt whole ipv4) (
            rw ethernet (
              rw (load16_within pkt 12 (omega arith))
                (rw ipv4 (rw whole (rw (load32_within pkt 26 (omega arith)) refl)))))
      ]
]

-- The counter goes up by the number of packets, modulo 2^64.
pub count_packets_lem : (n c : ℕ) → c < 2 ^ 64 → count_packets n (some c) ≡ some ((c + n) % 2 ^ 64)
unfolding count_packets
count_packets_lem zero c h = ap some (omega arith)
count_packets_lem (suc n) c h =
    count_packets_lem n (add64 c 1) (omega arith) ∙ ap some (omega arith)
