-- ===== src/Pipeline/Watch/Packets.antt =====
-- Each packet of xdp_firewall of project_submit/ebpf_control/src/xdp_blacklist.bpf.c
-- puts just what the watched source is due into the ring buffer.
use ebpf_nids.Prelude.{
  ℕ, ◌≡◌, refl, sym, true, false, not, ◌&&◌, Option, none, some, List, [], arith, ◌==◌, length,
  eq_refl, ==_iff, Bool-cases, inl, inr,
}
use mathlib.Core.Path.{subst}
use ebpf_nids.Kernel.{Kernel, Maps, AlertEvent}
use ebpf_nids.Xdp.Firewall.{syn_bit, ack_bit, syn_step, scan_step, count_packet}
use ebpf_nids.Xdp.Firewall.Verdict.{
  Kind, not_ip, ip, short_tcp, tcp, classify, passed, blocked_kind,
}
use ebpf_nids.Xdp.Firewall.Totals.{Arrival, after}
use ebpf_nids.Pipeline.Watch.{
  Watched, SynPacket, syn_of, next_watched, due, Tracks, Raises, syn_packet,
}
use ebpf_nids.Pipeline.Watch.Adding.{Raises-trans, Raises-none}
use ebpf_nids.Pipeline.Watch.Detectors.{syn_next, syn_watched, syn_other, scan_watched, scan_other}

module _ (k : Kernel) where
  plain_steps :
      (m : Maps k) (other flags dst port t u : ℕ)
      → syn_bit flags ≡ false
      → scan_step k (syn_step k m flags other dst t) flags other dst port u ≡ m
  unfolding scan_step syn_step
  plain_steps m other flags dst port t u plain = rw plain refl

  syn_of-none :
      (src other flags dst port : ℕ)
      → (other == src && syn_bit flags) ≡ false
      → syn_of src (tcp other dst port flags) ≡ none
  unfolding syn_of
  syn_of-none src other flags dst port e = rw e refl

  syn_of_self :
      (src flags dst port : ℕ)
      → syn_bit flags ≡ true
      → syn_of src (tcp src dst port flags)
        ≡ some (record { dst_ip = dst; dst_port = port; fresh = not (ack_bit flags) })
  unfolding syn_of
  syn_of_self src flags dst port e = rw (eq_refl src) (rw e refl)

  -- What a packet is due, with what is remembered after it.
  abbrev Reports : ℕ → Maps k → ℕ → Watched → ℕ → ℕ → Option SynPacket → Maps k → Type 0
  Reports n m src w t u p m' = Raises k n m src (due src w p t u) (next_watched w p) m'

  Reports-none :
      (n : ℕ) (m : Maps k) (src : ℕ) (w : Watched) (t u : ℕ) (p : Option SynPacket) (m' : Maps k)
      → p ≡ none
      → Raises k n m src [] w m'
      → Reports n m src w t u p m'
  unfolding due next_watched
  Reports-none n m src w t u p m' e r = rw e r

  detectors_watched :
      (m : Maps k) (src : ℕ) (w : Watched) (flags dst port t u : ℕ)
      → Tracks k m src w
      → syn_bit flags ≡ true
      → Reports 2 m src w t u
          (syn_of src (tcp src dst port flags))
          (scan_step k (syn_step k m flags src dst t) flags src dst port u)
  unfolding due next_watched
  detectors_watched m src w flags dst port t u h syn =
      let a = syn_watched k m src w flags dst t h syn in
      let b = scan_watched k _ src (syn_next k w flags) flags dst port u a.tracks syn in
      rw (syn_of_self src flags dst port syn) (Raises-trans k 1 1 m src _ _ a b)

  -- Both detectors, on a TCP packet.
  detectors :
      (m : Maps k) (src other : ℕ) (w : Watched) (flags dst port t u : ℕ)
      → Tracks k m src w
      → Reports 2 m src w t u
          (syn_of src (tcp other dst port flags))
          (scan_step k (syn_step k m flags other dst t) flags other dst port u)
  detectors m src other w flags dst port t u h = elim (Bool-cases (syn_bit flags)) [
    | inr plain ↦
        Reports-none 2 m src w t u _ _
          (syn_of-none src other flags dst port (ground (arith, plain)))
          (subst (Raises k 2 m src [] w) (sym (plain_steps m other flags dst port t u plain))
            (Raises-none k 2 m src w h))
    | inl syn ↦ elim (Bool-cases (other == src)) [
      | inr ne ↦
          let a = syn_other k m src other w flags dst t ne h in
          Reports-none 2 m src w t u _ _ (syn_of-none src other flags dst port (rw ne refl)) (
            Raises-trans k 1 1 m src _ _ a
              (scan_other k _ src other w flags dst port u ne a.tracks))
      | inl same ↦
          subst
            (λ x.
              Reports 2 m src w t u (syn_of src (tcp x dst port flags))
                (scan_step k (syn_step k m flags x dst t) flags x dst port u))
            (sym ((==_iff other src).0 same)) (detectors_watched m src w flags dst port t u h syn)
    ]
  ]

  counted-Raises :
      {n : ℕ} {m : Maps k} {src : ℕ} {es : List AlertEvent} {w : Watched} (m' : Maps k) (s size : ℕ)
      → Raises k n m src es w m'
      → Raises k n m src es w (count_packet k m' s size).1
  unfolding count_packet
  counted-Raises m' s size r = record {
    events = r.events;
    queued = r.queued;
    few = r.few;
    concerning = r.concerning;
    tracks = record { counter = r.tracks.counter; low = r.tracks.low; bitmap = r.tracks.bitmap };
  }

  passed-Reports :
      (m : Maps k) (src : ℕ) (w : Watched) (size t u : ℕ) (kind : Kind)
      → Tracks k m src w
      → Reports 2 m src w t u (syn_of src kind) (passed k m size t u kind)
  unfolding passed syn_of due next_watched
  passed-Reports m src w size t u not_ip h = Raises-none k 2 m src w h
  passed-Reports m src w size t u (short_tcp s d) h = Raises-none k 2 m src w h
  passed-Reports m src w size t u (ip s d) h = counted-Raises m s size (Raises-none k 2 m src w h)
  passed-Reports m src w size t u (tcp s d port flags) h =
      counted-Raises _ s size (detectors m src s w flags d port t u h)

  -- A packet of any source puts into the ring buffer just what the watched source is due by it,
  -- and what else it puts there is about another source.
  pub packet-Reports :
      (m : Maps k) (src : ℕ) (w : Watched) (p : Arrival)
      → Tracks k m src w
      → Reports 2 m src w p.syn_time p.scan_time
          (syn_packet k m.blacklist src p.packet)
          (after k m p)
  unfolding syn_packet
  packet-Reports m src w p h = elim (Bool-cases (blocked_kind k m.blacklist (classify p.packet))) [
    | inl hit ↦ rw hit (unfold due next_watched in Raises-none k 2 m src w h)
    | inr miss ↦
        rw miss
          (passed-Reports m src w (length p.packet) p.syn_time p.scan_time (classify p.packet) h)
  ]
