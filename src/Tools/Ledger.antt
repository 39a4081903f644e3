-- ===== src/Tools/Ledger.antt =====
-- What the tools of examples/ acquire from the kernel and the BPF library, and give back.
use ebpf_nids.Prelude.{
  ℕ, ◌+◌, ◌≡◌, Bool, Option, none, some, List, [], ◌∷◌, ◌++◌, arith, if◌then◌else◌,
}
use ebpf_nids.Prelude.Int.{ℤ}

-- A loaded program, a ring buffer, a perf buffer, a program attached to an interface or to its tracepoints, the
-- links of an iterator and of a USDT probe, a hook of traffic control and the filter on it, and
-- descriptors.
pub data Resource : Type 0 where
  skeleton ring perf links iter_link tc_hook tc_filter usdt_link : Resource
  xdp_hook map_fd iter_fd socket : ℕ → Resource

-- The exit status of a run, and what was acquired and released in it, each in its order.
pub record Run : Type 0 where
  pub status : ℤ
  pub acquired : List Resource
  pub released : List Resource

-- How many of some things a test selects.
module _ {A : Type 0} (P : A → Bool) where
  unfoldable pub weight : A → ℕ
  weight r = if P r then 1 else 0

  unfoldable pub count : List A → ℕ
  unfolding weight
  count [] = 0
  count (r ∷ rs) = weight r + count rs

  pub count-append : (xs ys : List A) → count (xs ++ ys) ≡ count xs + count ys
  unfolding count
  count-append [] ys = omega arith
  count-append (x ∷ xs) ys = omega (arith, count-append xs ys)

-- Of every kind of resource as many are released as acquired.
abbrev pub Balanced : Run → Type 0
Balanced r = (P : Resource → Bool) → count P r.acquired ≡ count P r.released

-- All but the resources `kept` are released.
abbrev pub Keeps : List Resource → Run → Type 0
Keeps kept r = (P : Resource → Bool) → count P r.acquired ≡ count P (kept ++ r.released)

-- The run has come to its end, with a property.
unfoldable pub Leaves : (Run → Type 0) → Option Run → Type 0
Leaves P none = ⊥
Leaves P (some r) = P r
