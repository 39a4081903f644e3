-- ===== src/Pipeline/System.antt =====
-- The data plane (project_submit/ebpf_control/src/xdp_blacklist.bpf.c) and the loader
-- (project_submit/ebpf_control/src/loader.c) side by side: packets arrive between the rounds of the
-- loader's loop, and a round takes some of the events that wait in the ring buffer, oldest first,
-- and reads the statistics map that the packets are counted in.
pub mod Rounds
pub mod Delivery
mod Tests
use mathlib.Core.List.{map}
use ebpf_nids.Prelude.{
  ℕ, ◌≡◌, Bool, true, false, Option, none, some, List, [], ◌∷◌, take, drop, if◌then◌else◌, ◌>>=◌,
}
use ebpf_nids.Kernel.{Kernel, Maps, AlertEvent, RingBuffer}
use ebpf_nids.Xdp.Firewall.{xdp_firewall}
use ebpf_nids.Xdp.Firewall.Totals.{Arrival}
use ebpf_nids.Loader.Loop.{Tick, Loop, signalled, iteration}
use ebpf_nids.Pipeline.{record_of}

-- The consumer's side of a ring buffer: the oldest `n` events are taken out.
pub record Consumer (r : RingBuffer) : Type 0 where
  pub consume : r.State → ℕ → r.State
  pub events-consume : (q : r.State) (n : ℕ) → r.events (consume q n) ≡ drop n (r.events q)

pub record System (k : Kernel) : Type 0 where
  pub maps : Maps k
  pub loop : Loop

-- A packet arrives, or the loop goes through a round, in which `ring_buffer__poll` takes up to `n`
-- events.
pub data Happening : Type 0 where
  arrives : Arrival → Happening
  round : ℕ → Tick → Happening

-- The events that wait in the ring buffer.
abbrev pub pending : (k : Kernel) → System k → List AlertEvent
pending k s = k.alert_rb.events s.maps.alert_rb

module _ (k : Kernel) (c : Consumer k.alert_rb) where
  -- The tick of a round, with the events that its poll hands to `handle_alert`, and the values that
  -- it finds in the statistics map.
  abbrev pub polling : Maps k → ℕ → Tick → Tick
  polling m n t = record t {
    polled = map record_of (take n (k.alert_rb.events m.alert_rb));
    view = record t.view { value = k.flow_stats.lookup m.flow_stats };
  }

  abbrev pub consumed : Maps k → ℕ → Maps k
  consumed m n = record m { alert_rb = c.consume m.alert_rb n }

  -- `none` is an access past the end of a packet, or fuel that ran out.
  unfoldable pub step : System k → Happening → Option (System k)
  step s (arrives p) = do
    r ← xdp_firewall k s.maps p.packet p.syn_time p.scan_time
    some (record s { maps = r.1 })
  step s (round n t) =
      let l = signalled s.loop t.signals in
      elim l.state.exiting [
        | true ↦ some (record s { loop = l })
        | false ↦ (do
          l' ← iteration (polling s.maps n t) l
          some (record { maps = if l.state.rb then consumed s.maps n else s.maps; loop = l' }))
      ]

  unfoldable pub run : System k → List Happening → Option (System k)
  run s [] = some s
  run s (x ∷ xs) = do s' ← step s x; run s' xs
