-- ===== src/Xdp/Filter/Agrees.antt =====
-- That project_submit/ebpf_control/src/xdp_blacklist.bpf.c lets through what the blacklist filter of
-- examples/c/xdp_blacklist.bpf.c lets through.
use mathlib.Core.Option
use ebpf_nids.Prelude.{
  ℕ, ◌≤◌, ◌≡◌, refl, sym, ap, ◌∙◌, Bool, true, false, not, ◌&&◌, Option, some, arith, ltb, ◌==◌,
  length, get_or, if◌then◌else◌, Bool-cases, inl, inr,
}
use ebpf_nids.Kernel.{HashMap, Kernel, Maps}
use ebpf_nids.Xdp.Packet.{Bytes, field16, field32, load16_within, load32_within}
use ebpf_nids.Xdp.Firewall.{Action, drop, pass, is_blocked, xdp_firewall}
use ebpf_nids.Xdp.Firewall.Verdict.{
  classify, blocked_kind, passed, blocked-tcp_kind, xdp_firewall_lem,
}
use ebpf_nids.Xdp.Filter.{xdp_blacklist_filter}

-- A whole IPv4 packet whose source is in the blacklist.
is_hit : (h : HashMap ℕ) → h.State → Bytes → Bool
is_hit h b pkt =
    if not (ltb (length pkt) 34) && field16 pkt 12 == 0x0800
    then is_blocked h b (field32 pkt 26)
    else false

abbrev verdict : Bool → Action
verdict b = if b then drop else pass

filter_lem :
    (h : HashMap ℕ) (b : h.State) (pkt : Bytes)
    → xdp_blacklist_filter h b pkt ≡ some (verdict (is_hit h b pkt))
unfolding xdp_blacklist_filter is_hit
filter_lem h b pkt = elim (Bool-cases (ltb (length pkt) 34)) [
  | inl short ↦ elim (Bool-cases (ltb (length pkt) 14)) [
    | inl s ↦ rw s (rw short refl)
    | inr e ↦ rw e (
        rw (load16_within pkt 12 (ground arith)) (elim (Bool-cases (field16 pkt 12 == 0x0800)) [
          | inl ipv4 ↦ rw ipv4 (rw short refl)
          | inr other ↦ rw other (rw short refl)
        ]))
  ]
  | inr whole ↦
      let fits : 34 ≤ length pkt = ground arith in
      let ethernet : ltb (length pkt) 14 ≡ false = ground arith in
      rw ethernet (
        rw (load16_within pkt 12 (omega arith)) (elim (Bool-cases (field16 pkt 12 == 0x0800)) [
          | inr other ↦ rw other (rw whole refl)
          | inl ipv4 ↦ rw ipv4 (
              rw whole (
                rw (load32_within pkt 26 (omega arith))
                  (elim (Bool-cases (is_blocked h b (field32 pkt 26))) [
                    | inl hit ↦ rw hit refl
                    | inr miss ↦ rw miss refl
                  ])))
        ]))
]

module _ (k : Kernel) (m : Maps k) where
  blocked-classify :
      (pkt : Bytes) → blocked_kind k m.blacklist (classify pkt) ≡ is_hit k.blacklist m.blacklist pkt
  unfolding classify is_hit
  blocked-classify pkt = elim (Bool-cases (not (ltb (length pkt) 34) && field16 pkt 12 == 0x0800)) [
    | inr other ↦ rw other (unfold blocked_kind in refl)
    | inl ipv4 ↦ rw ipv4 (elim (Bool-cases (get_or pkt 23 0 == 6)) [
      | inl six ↦ rw six (blocked-tcp_kind k m pkt (field32 pkt 26) (field32 pkt 30))
      | inr other ↦ rw other (unfold blocked_kind in refl)
    ])
  ]

  -- What a result says to do with the packet.
  abbrev pub action : Option (Action × Maps k) → Option Action
  action = Option.map (λ r. r.0)

  -- On every packet, with the same blacklist, the full data plane passes what the blacklist filter
  -- passes and drops what it drops: detection and counting change no verdict.
  pub action-xdp_firewall :
      (pkt : Bytes) (syn_time scan_time : ℕ)
      → action (xdp_firewall k m pkt syn_time scan_time)
        ≡ xdp_blacklist_filter k.blacklist m.blacklist pkt
  action-xdp_firewall pkt t u =
      ap action (xdp_firewall_lem k m pkt t u)
      ∙ by_hit (blocked_kind k m.blacklist (classify pkt))
      ∙ ap (λ b. some (verdict b)) (blocked-classify pkt)
      ∙ sym (filter_lem k.blacklist m.blacklist pkt)
    where
      by_hit :
          (b : Bool)
          → action
              (some (if b then (drop, m) else (pass, passed k m (length pkt) t u (classify pkt))))
            ≡ some (verdict b)
      by_hit true = refl
      by_hit false = refl
