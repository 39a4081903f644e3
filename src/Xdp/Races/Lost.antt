-- ===== src/Xdp/Races/Lost.antt =====
-- What a shared counter can be after a run of several CPUs.
use mathlib.Core.Path.{subst}
use ebpf_nids.Prelude.{ℕ, ◌+◌, ◌^◌, ◌≤◌, ◌<◌, ◌≡◌, refl, some, arith, ◌==◌, Bool-cases, inl, inr}
use ebpf_nids.Kernel.{add64}
use ebpf_nids.Xdp.Races.{
  Shared, load_counter, store_counter, Schedule, begin, loads, stores, at_rest,
}

-- Within what has been stored.
abbrev pub Within : ℕ → ℕ → ℕ → Type 0
Within n sum x = (n ≤ x) × (x ≤ n + sum)

record Bounded (n sum : ℕ) (s : Shared) : Type 0 where
  counter : Within n sum s.counter
  loaded : (cpu old size : ℕ) → s.loaded cpu ≡ some (old, size) → Within n sum old

Bounded-load :
    (n sum : ℕ) (s : Shared) (cpu size : ℕ)
    → Bounded n sum s
    → Bounded n sum (load_counter s cpu size)
unfolding load_counter
Bounded-load n sum s cpu size b = record {
  counter = b.counter;
  loaded = λ i old k e. elim (Bool-cases (i == cpu)) [
    | inl t ↦ ground (arith, b.counter)
    | inr f ↦ b.loaded i old k (ground arith)
  ];
}

Bounded-store :
    (n sum : ℕ) (s : Shared) (cpu old size : ℕ)
    → n + (sum + size) < 2 ^ 64
    → Bounded n sum s
    → s.loaded cpu ≡ some (old, size)
    → Bounded n (sum + size) (store_counter s cpu old size)
unfolding store_counter
Bounded-store n sum s cpu old size small b e =
    let w = b.loaded cpu old size e in
    record {
      counter = (omega (arith, w.0, w.1), omega (arith, w.0, w.1));
      loaded = λ i o k h. elim (Bool-cases (i == cpu)) [
        | inl t ↦ absurd (ground arith)
        | inr f ↦ (let v = b.loaded i o k (ground arith) in (v.0, omega (arith, v.1)))
      ];
    }

runs-Bounded :
    {n sum : ℕ} {t : Shared} → Schedule (at_rest n) sum t → n + sum < 2 ^ 64 → Bounded n sum t
runs-Bounded {n = n} begin small = record {
  counter = (omega arith, omega arith);
  loaded = λ i old k e. absurd (ground arith);
}
runs-Bounded {n = n} (loads {t = t} {sum = sum} cpu size r e) small =
    Bounded-load n sum t cpu size (runs-Bounded r small)
runs-Bounded {n = n} (stores {t = t} {sum = sum} cpu old size r e) small =
    Bounded-store n sum t cpu old size small (runs-Bounded r (omega arith)) e

-- Whatever the CPUs' order, a counter that starts at `n` with no statement under way is never below
-- `n`, and never above `n` and the sum of the sizes that were stored, if that is below 2^64.
pub counter_race :
    {n sum : ℕ} {t : Shared}
    → Schedule (at_rest n) sum t
    → n + sum < 2 ^ 64
    → Within n sum t.counter
counter_race r small = (runs-Bounded r small).counter

-- Two CPUs that load before either stores lose the first one's size: whatever the counter and the
-- sizes are, there is a run that stores both and leaves what the second size alone gives.
pub lost_update :
    (n a b : ℕ) → (t : Shared) × Schedule (at_rest n) (a + b) t × (t.counter ≡ add64 n b)
unfolding load_counter store_counter
lost_update n a b =
    let one = load_counter (at_rest n) 0 a in
    let two = load_counter one 1 b in
    let three = store_counter two 0 n a in
    let run : Schedule (at_rest n) (0 + a) three =
      stores 0 n a (loads 1 b (loads 0 a begin refl) refl) refl in
    let run' : Schedule (at_rest n) a three =
      subst (λ k. Schedule (at_rest n) k three) (omega arith) run in
    (store_counter three 1 n b, stores 1 n b run' refl, refl)
