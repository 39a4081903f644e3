-- ===== src/Xdp/Syn/Period.antt =====
-- How often a source that sends SYN packets is reported.
use ebpf_nids.Prelude.{
  ℕ, ◌+◌, ◌/◌, ◌%◌, ◌≤◌, ◌≡◌, refl, List, [], ◌∷◌, some, arith, ◌==◌, length, if◌then◌else◌,
}
use ebpf_nids.Kernel.{AlertEvent, PerCpuHash, RingBuffer, syn_threshold, submit}
use ebpf_nids.Xdp.Syn.{syn_alert, check_syn_flood}

-- A SYN packet of one source: where it goes, and when it is seen.
pub record Syn : Type 0 where
  pub dst_ip : ℕ
  pub time : ℕ

abbrev pub next_count : ℕ → ℕ
next_count count = if count == syn_threshold then 0 else count + 1

-- The events that the packets of `src` are to raise when `count` of them have been counted.
unfoldable pub expected : ℕ → ℕ → List Syn → List AlertEvent
expected src count [] = []
expected src count (p ∷ ps) =
    let rest = expected src (next_count count) ps in
    if count == syn_threshold then syn_alert src p.dst_ip p.time ∷ rest else rest

pub length-expected :
    (src count : ℕ) (ps : List Syn)
    → count ≤ syn_threshold
    → length (expected src count ps) ≡ (count + length ps) / (syn_threshold + 1)
unfolding expected
length-expected src count [] h = omega arith
length-expected src count (p ∷ ps) h = ground (arith, length-expected src (next_count count) ps)

module _ (c : PerCpuHash) (r : RingBuffer) where
  -- The calls for a source's SYN packets, in the order in which they arrive at the CPU.
  pub run_syns : c.State × r.State → ℕ → List Syn → c.State × r.State
  run_syns s src [] = s
  run_syns s src (p ∷ ps) = run_syns (check_syn_flood c r s src p.dst_ip p.time) src ps

  pub counter_step :
      (m : c.State) (q : r.State) (src count dst now : ℕ)
      → c.lookup m src ≡ some count
      → count ≤ syn_threshold
      → (c.lookup (check_syn_flood c r (m, q) src dst now).0 src ≡ some (next_count count))
        × ((check_syn_flood c r (m, q) src dst now).1
            ≡ (if count == syn_threshold then (r.output q (syn_alert src dst now)).1 else q))
  unfolding check_syn_flood
  counter_step m q src count dst now e h = ground (
    arith,
    c.lookup-store m src count (count + 1) src,
    c.lookup-store (c.store m src (count + 1)) src (count + 1) 0 src,
  )

  -- A source whose counter stands at `count` (at most 100) and that sends `n` more SYN packets on
  -- the CPU leaves its counter at (count + n) mod 101, and one event goes to the ring buffer for
  -- each 101st packet, with that packet's destination and time, and no other.
  pub syn_flood_period :
      (m : c.State) (q : r.State) (src count : ℕ) (ps : List Syn)
      → c.lookup m src ≡ some count
      → count ≤ syn_threshold
      → (c.lookup (run_syns (m, q) src ps).0 src ≡ some ((count + length ps) % (syn_threshold + 1)))
        × ((run_syns (m, q) src ps).1 ≡ submit r q (expected src count ps))
        × (length (expected src count ps) ≡ (count + length ps) / (syn_threshold + 1))
  unfolding run_syns submit expected
  syn_flood_period m q src count [] e h = (rw e (ground arith), refl, omega arith)
  syn_flood_period m q src count (p ∷ ps) e h =
      let s = check_syn_flood c r (m, q) src p.dst_ip p.time in
      let (known, sent) = counter_step m q src count p.dst_ip p.time e h in
      let (last, raised, many) =
        syn_flood_period s.0 s.1 src (next_count count) ps known (ground arith) in
      (ground (arith, last), ground (arith, sent, raised), length-expected src count (p ∷ ps) h)
