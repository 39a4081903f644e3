-- ===== src/Xdp/Firewall/Totals.antt =====
-- What the flow statistics say after a sequence of packets.
use ebpf_nids.Prelude.{
  ℕ, ◌+◌, ◌%◌, ◌^◌, ◌<◌, ◌≡◌, refl, ap, ◌∙◌, Bool, false, Option, none, some, List, [], ◌∷◌, arith,
  ◌==◌, length, if◌then◌else◌, ◌>>=◌, Bool-cases, inl, inr,
}
use mathlib.Core.Path.{subst}
use ebpf_nids.Kernel.{Kernel, Maps, FlowStats}
use ebpf_nids.Xdp.Packet.{Bytes}
use ebpf_nids.Xdp.Flow.{
  update_flow_stats, counted, lookup-update_flow_stats, lookup-update_flow_stats_ne,
}
use ebpf_nids.Xdp.Firewall.{count_packet, syn_step, scan_step, xdp_firewall}
use ebpf_nids.Xdp.Firewall.Verdict.{
  Kind, not_ip, ip, short_tcp, tcp, classify, passed, blocked_kind, xdp_firewall_lem,
}

-- A packet, with the times that the program would read while it handles it.
pub record Arrival : Type 0 where
  pub packet : Bytes
  pub syn_time : ℕ
  pub scan_time : ℕ

-- The source that a packet is counted for, if it is not blocked.
unfoldable pub source : Kind → Option ℕ
source not_ip = none
source (short_tcp src dst) = none
source (ip src dst) = some src
source (tcp src dst port flags) = some src

abbrev is_source : Option ℕ → ℕ → Bool
is_source none src = false
is_source (some s) src = s == src

module _ (k : Kernel) where
  -- The program on one packet after the other.
  pub run_packets : Maps k → List Arrival → Option (Maps k)
  run_packets m [] = some m
  run_packets m (p ∷ ps) = do
    r ← xdp_firewall k m p.packet p.syn_time p.scan_time
    run_packets r.1 ps

  -- Whether a packet is one of `src` to be counted.
  unfoldable pub counts : k.blacklist.State → ℕ → Bytes → Bool
  counts b src pkt =
      if blocked_kind k b (classify pkt) then false else is_source (source (classify pkt)) src

  unfoldable pub packets_of : k.blacklist.State → ℕ → List Arrival → ℕ
  packets_of b src [] = 0
  packets_of b src (p ∷ ps) = (if counts b src p.packet then 1 else 0) + packets_of b src ps

  unfoldable pub bytes_of : k.blacklist.State → ℕ → List Arrival → ℕ
  bytes_of b src [] = 0
  bytes_of b src (p ∷ ps) =
      (if counts b src p.packet then length p.packet else 0) + bytes_of b src ps

  -- The maps after one packet.
  abbrev pub after : Maps k → Arrival → Maps k
  after m p =
      if blocked_kind k m.blacklist (classify p.packet)
      then m
      else passed k m (length p.packet) p.syn_time p.scan_time (classify p.packet)

  passed-blacklist :
      (m : Maps k) (size t u : ℕ) (kind : Kind) → (passed k m size t u kind).blacklist ≡ m.blacklist
  unfolding passed count_packet syn_step scan_step
  passed-blacklist m size t u not_ip = refl
  passed-blacklist m size t u _ = ground arith

  abbrev flow_after : Option ℕ → k.flow_stats.State → ℕ → k.flow_stats.State
  flow_after none m size = m
  flow_after (some src) m size = update_flow_stats k.flow_stats m src size

  passed-flow_stats :
      (m : Maps k) (size t u : ℕ) (kind : Kind)
      → (passed k m size t u kind).flow_stats ≡ flow_after (source kind) m.flow_stats size
  unfolding passed source count_packet syn_step scan_step
  passed-flow_stats m size t u not_ip = refl
  passed-flow_stats m size t u _ = ground arith

  lookup-flow_after :
      (o : Option ℕ) (m : k.flow_stats.State) (size src : ℕ) (s : FlowStats)
      → k.flow_stats.lookup m src ≡ some s
      → k.flow_stats.lookup (flow_after o m size) src
        ≡ some (if is_source o src then counted k.flow_stats s size else s)
  lookup-flow_after none m size src s e = e
  lookup-flow_after (some src') m size src s e = elim (Bool-cases (src' == src)) [
    | inl same ↦ ground (arith, lookup-update_flow_stats k.flow_stats m src size s src)
    | inr other ↦ rw other (lookup-update_flow_stats_ne k.flow_stats m src' size src other ∙ e)
  ]

  run_packets-cons :
      (m : Maps k) (p : Arrival) (ps : List Arrival)
      → run_packets m (p ∷ ps) ≡ run_packets (after m p) ps
  unfolding run_packets
  run_packets-cons m p ps =
      rw (xdp_firewall_lem k m p.packet p.syn_time p.scan_time)
        (elim (Bool-cases (blocked_kind k m.blacklist (classify p.packet))) [
          | inl hit ↦ rw hit refl
          | inr miss ↦ rw miss refl
        ])

  pub after-blacklist : (m : Maps k) (p : Arrival) → (after m p).blacklist ≡ m.blacklist
  after-blacklist m p =
      let kind = classify p.packet in
      ground (arith, passed-blacklist m (length p.packet) p.syn_time p.scan_time kind)

  lookup-after :
      (m : Maps k) (p : Arrival) (src : ℕ) (s : FlowStats)
      → k.flow_stats.lookup m.flow_stats src ≡ some s
      → k.flow_stats.lookup (after m p).flow_stats src
        ≡ some (
            if counts m.blacklist src p.packet then counted k.flow_stats s (length p.packet) else s)
  unfolding counts
  lookup-after m p src s e =
      let kind = classify p.packet in
      let size = length p.packet in
      elim (Bool-cases (blocked_kind k m.blacklist kind)) [
        | inl hit ↦ rw hit e
        | inr miss ↦ rw miss (
            rw (passed-flow_stats m size p.syn_time p.scan_time kind)
              (lookup-flow_after (source kind) m.flow_stats size src s e))
      ]

  totals_step :
      (b : k.blacklist.State) (p : Arrival) (ps : List Arrival) (src : ℕ) (s : FlowStats)
      → let add : FlowStats =
          if counts b src p.packet then counted k.flow_stats s (length p.packet) else s in
        ◌≡◌ {A = FlowStats}
          (record {
            pkt_count = (add.pkt_count + packets_of b src ps) % 2 ^ 64;
            byte_count = (add.byte_count + bytes_of b src ps) % 2 ^ 64;
          })
          (record {
            pkt_count = (s.pkt_count + packets_of b src (p ∷ ps)) % 2 ^ 64;
            byte_count = (s.byte_count + bytes_of b src (p ∷ ps)) % 2 ^ 64;
          })
  unfolding packets_of bytes_of
  totals_step b p ps src s = ground arith

  -- Whatever packets arrive, the program handles them all, the blacklist stays as it is, and a
  -- source that has an entry with the counts `s` has after them one with the number of its packets
  -- and of their bytes added, modulo 2 ^ 64: those that are IPv4 with whole headers (for TCP, the
  -- TCP header too) while the source is not blocked.
  pub flow_totals :
      (m : Maps k) (ps : List Arrival) (src : ℕ) (s : FlowStats)
      → k.flow_stats.lookup m.flow_stats src ≡ some s
      → s.pkt_count < 2 ^ 64
      → s.byte_count < 2 ^ 64
      → (m' : Maps k) × (run_packets m ps ≡ some m')
        × (m'.blacklist ≡ m.blacklist)
        × (k.flow_stats.lookup m'.flow_stats src
            ≡ some (record {
              pkt_count = (s.pkt_count + packets_of m.blacklist src ps) % 2 ^ 64;
              byte_count = (s.byte_count + bytes_of m.blacklist src ps) % 2 ^ 64;
            }))
  unfolding packets_of bytes_of
  flow_totals m [] src s e hp hb = (m, unfold run_packets in refl, refl, ground arith)
  flow_totals m (p ∷ ps) src s e hp hb =
      let add : FlowStats =
        if counts m.blacklist src p.packet then counted k.flow_stats s (length p.packet) else s in
      let (m', ran, same, found) =
        flow_totals (after m p) ps src add (lookup-after m p src s e) (ground arith)
          (ground arith) in
      (
        m',
        run_packets-cons m p ps ∙ ran,
        same ∙ after-blacklist m p,
        subst
              (λ b.
                k.flow_stats.lookup m'.flow_stats src
                ≡ some (record {
                  pkt_count = (add.pkt_count + packets_of b src ps) % 2 ^ 64;
                  byte_count = (add.byte_count + bytes_of b src ps) % 2 ^ 64;
                }))
              (after-blacklist m p) found
            ∙ ap some (totals_step m.blacklist p ps src s),
      )
