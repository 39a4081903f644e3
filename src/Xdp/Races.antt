-- ===== src/Xdp/Races.antt =====
-- `stats->pkt_count++` and `stats->byte_count += pkt_size` in `update_flow_stats` of
-- project_submit/ebpf_control/src/xdp_blacklist.bpf.c, where several CPUs run the program at once:
-- the entry is shared, and each of the two statements is a load and a store.
pub mod Lost
pub mod Words
use ebpf_nids.Prelude.{ℕ, ◌+◌, ◌≡◌, Bool, Option, none, some, ◌==◌, if◌then◌else◌}
use ebpf_nids.Kernel.{add64}

-- A counter of a source's entry, and for each CPU what it has loaded and is going to add.
pub record Shared : Type 0 where
  pub counter : ℕ
  pub loaded : ℕ → Option (ℕ × ℕ)

abbrev pub at_cpu : (ℕ → Option (ℕ × ℕ)) → ℕ → Option (ℕ × ℕ) → ℕ → Option (ℕ × ℕ)
at_cpu loaded cpu o i = if i == cpu then o else loaded i

-- The state after a CPU that is not amid a statement loads the counter, to add `size`.
unfoldable pub load_counter : Shared → ℕ → ℕ → Shared
load_counter s cpu size = record s { loaded = at_cpu s.loaded cpu (some (s.counter, size)) }

-- The state after it stores the sum of what it loaded and the size.
unfoldable pub store_counter : Shared → ℕ → ℕ → ℕ → Shared
store_counter s cpu old size = record {
  counter = add64 old size;
  loaded = at_cpu s.loaded cpu none;
}

-- A run of the CPUs in some order, with the sum of the sizes that were stored.
pub data Schedule (s : Shared) : ℕ → Shared → Type 0 where
  begin : Schedule s 0 s
  loads :
      {t : Shared} {sum : ℕ} (cpu size : ℕ)
      → Schedule s sum t
      → t.loaded cpu ≡ none
      → Schedule s sum (load_counter t cpu size)
  stores :
      {t : Shared} {sum : ℕ} (cpu old size : ℕ)
      → Schedule s sum t
      → t.loaded cpu ≡ some (old, size)
      → Schedule s (sum + size) (store_counter t cpu old size)

-- No CPU is amid a statement.
abbrev pub at_rest : ℕ → Shared
at_rest n = record { counter = n; loaded = λ cpu. none }
