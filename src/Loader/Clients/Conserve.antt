-- ===== src/Loader/Clients/Conserve.antt =====
-- No descriptor is lost: each that the kernel handed out is in a slot or closed.
use mathlib.Core.Path.{subst}
use ebpf_nids.Prelude.{
  ℕ, zero, suc, ◌+◌, ◌≤◌, ◌≡◌, ◌⊎◌, refl, ap, sym, ◌∙◌, Option, none, some, List, [], ◌∷◌, ◌++◌,
  arith, length, get_or, Option-cases, inl, inr, ◌==◌, if◌then◌else◌,
}
use ebpf_nids.Loader.Clients.{
  Slots, Served, Accepted, client, again, failed, store_client, accept_clients,
}

-- How often a descriptor stands in a list.
unfoldable pub count : ℕ → List ℕ → ℕ
count fd [] = 0
count fd (x ∷ xs) = (if x == fd then 1 else 0) + count fd xs

-- The descriptors in the slots.
unfoldable pub held : Slots → List ℕ
held [] = []
held (none ∷ fds) = held fds
held (some fd ∷ fds) = fd ∷ held fds

-- The connections that the kernel hands out before it has none left.
unfoldable pub handed : List Accepted → List ℕ
handed [] = []
handed (again ∷ calls) = []
handed (failed ∷ calls) = []
handed (client fd ∷ calls) = fd ∷ handed calls

pub count-append : (fd : ℕ) (a b : List ℕ) → count fd (a ++ b) ≡ count fd a + count fd b
unfolding count
count-append fd [] b = omega arith
count-append fd (x ∷ a) b = omega (arith, count-append fd a b)

-- The slots that keep what is in them.
pub record Extends (fds fds' : Slots) : Type 0 where
  pub size : length fds' ≡ length fds
  pub keeps : (i : ℕ) → (get_or fds i none ≡ none) ⊎ (get_or fds' i none ≡ get_or fds i none)

-- Every slot is taken.
abbrev pub IsFull : Slots → Type 0
IsFull fds = length (held fds) ≡ length fds

Extends-cons : (s : Option ℕ) (fds fds' : Slots) → Extends fds fds' → Extends (s ∷ fds) (s ∷ fds')
Extends-cons s fds fds' e = record { size = ap suc e.size; keeps = keeps }
  where
    keeps :
        (i : ℕ)
        → (get_or (s ∷ fds) i none ≡ none) ⊎ (get_or (s ∷ fds') i none ≡ get_or (s ∷ fds) i none)
    keeps zero = inr refl
    keeps (suc i) = e.keeps i

record Stored (fds : Slots) (cfd : ℕ) (fds' : Slots) : Type 0 where
  extends : Extends fds fds'
  counts : (fd : ℕ) → count fd (held fds') ≡ count fd (held fds) + count fd (cfd ∷ [])

store_client-Stored :
    (fds : Slots) (cfd : ℕ) (fds' : Slots) → store_client fds cfd ≡ some fds' → Stored fds cfd fds'
unfolding store_client held count
store_client-Stored [] cfd fds' h = cc
store_client-Stored (none ∷ fds) cfd fds' h =
    let q : some cfd ∷ fds ≡ fds' = cc in
    subst (Stored (none ∷ fds) cfd) q
      (record { extends = record { size = refl; keeps = keeps }; counts = λ fd. omega arith })
  where
    keeps :
        (i : ℕ)
        → (get_or (none ∷ fds) i none ≡ none)
          ⊎ (get_or (some cfd ∷ fds) i none ≡ get_or (none ∷ fds) i none)
    keeps zero = inl refl
    keeps (suc i) = inr refl
store_client-Stored (some fd ∷ fds) cfd fds' h = elim (Option-cases (store_client fds cfd)) [
  | inl e ↦ ground arith
  | inr (g, e) ↦
      let r = store_client-Stored fds cfd g e in
      let q : some fd ∷ g ≡ fds' = ground arith in
      subst (Stored (some fd ∷ fds) cfd) q (record {
        extends = Extends-cons (some fd) fds g r.extends;
        counts = λ x. omega (arith, r.counts x);
      })
]

store_client-IsFull : (fds : Slots) (cfd : ℕ) → store_client fds cfd ≡ none → IsFull fds
unfolding store_client held
store_client-IsFull [] cfd h = refl
store_client-IsFull (none ∷ fds) cfd h = cc
store_client-IsFull (some fd ∷ fds) cfd h = elim (Option-cases (store_client fds cfd)) [
  | inl e ↦ ap suc (store_client-IsFull fds cfd e)
  | inr (f, e) ↦ ground arith
]

length-held-le : (fds : Slots) → length (held fds) ≤ length fds
unfolding held
length-held-le [] = omega arith
length-held-le (none ∷ fds) = omega (arith, length-held-le fds)
length-held-le (some fd ∷ fds) = omega (arith, length-held-le fds)

IsFull-store_client : (fds : Slots) (cfd : ℕ) → IsFull fds → store_client fds cfd ≡ none
unfolding store_client held
IsFull-store_client [] cfd h = refl
IsFull-store_client (none ∷ fds) cfd h = absurd (omega (arith, length-held-le fds))
IsFull-store_client (some fd ∷ fds) cfd h = rw (IsFull-store_client fds cfd (omega arith))

Extends-refl : (fds : Slots) → Extends fds fds
Extends-refl fds = record { size = refl; keeps = λ i. inr refl }

Extends-trans : {a b c : Slots} → Extends a b → Extends b c → Extends a c
Extends-trans p q = record {
  size = q.size ∙ p.size;
  keeps = λ i. elim (p.keeps i) [
    | inl free ↦ inl free
    | inr e ↦ elim (q.keeps i) [ inl free ↦ inl (sym e ∙ free) | inr e' ↦ inr (e' ∙ e) ]
  ];
}

-- What a round of `accept` leaves behind.
pub record Conserves (fds : Slots) (calls : List Accepted) (r : Served) : Type 0 where
  pub extends : Extends fds r.0
  pub counts :
      (fd : ℕ) → count fd (held r.0) + count fd r.1 ≡ count fd (held fds) + count fd (handed calls)
  pub closes_when_full : (r.1 ≡ []) ⊎ IsFull r.0

Conserves-stop :
    (fds : Slots) (calls : List Accepted) → handed calls ≡ [] → Conserves fds calls (fds, [])
unfolding count
Conserves-stop fds calls e = record {
  extends = Extends-refl fds;
  counts = λ fd. rw e refl;
  closes_when_full = inl refl;
}

-- Once the slots are full every further connection is closed.
accept_clients_full :
    (fds : Slots) (calls : List Accepted)
    → IsFull fds
    → accept_clients fds calls ≡ (fds, handed calls)
unfolding accept_clients handed
accept_clients_full fds [] h = refl
accept_clients_full fds (again ∷ calls) h = refl
accept_clients_full fds (failed ∷ calls) h = refl
accept_clients_full fds (client cfd ∷ calls) h =
    rw (IsFull-store_client fds cfd h) (rw (accept_clients_full fds calls h))

-- A round of `accept`, whatever the kernel answers: each descriptor that it hands out before it has
-- none left is afterwards in a slot or closed, as often as it was handed out, and so is each that
-- was in a slot; no client that was connected loses its slot; and a connection is turned away only
-- if all slots are taken.
pub accept_clients-Conserves :
    (fds : Slots) (calls : List Accepted) → Conserves fds calls (accept_clients fds calls)
unfolding accept_clients handed count
accept_clients-Conserves fds [] = Conserves-stop fds [] refl
accept_clients-Conserves fds (again ∷ calls) = Conserves-stop fds (again ∷ calls) refl
accept_clients-Conserves fds (failed ∷ calls) = Conserves-stop fds (failed ∷ calls) refl
accept_clients-Conserves fds (client cfd ∷ calls) = elim (Option-cases (store_client fds cfd)) [
  | inl e ↦
      let full = store_client-IsFull fds cfd e in
      rw e (
        rw (accept_clients_full fds calls full)
          (record { extends = Extends-refl fds; counts = λ fd. refl; closes_when_full = inr full }))
  | inr (g, e) ↦
      let first = store_client-Stored fds cfd g e in
      let rest = accept_clients-Conserves g calls in
      rw e (record {
        extends = Extends-trans first.extends rest.extends;
        counts = λ fd. omega (arith, first.counts fd, rest.counts fd);
        closes_when_full = rest.closes_when_full;
      })
]

-- A client keeps its slots while others are let in.
pub held-accept_clients :
    (fds : Slots) (calls : List Accepted) (fd : ℕ)
    → count fd (held fds) ≤ count fd (held (accept_clients fds calls).0)
unfolding accept_clients
held-accept_clients fds [] fd = omega arith
held-accept_clients fds (again ∷ calls) fd = omega arith
held-accept_clients fds (failed ∷ calls) fd = omega arith
held-accept_clients fds (client cfd ∷ calls) fd = elim (Option-cases (store_client fds cfd)) [
  | inl e ↦ rw e (held-accept_clients fds calls fd)
  | inr (g, e) ↦
      let first = store_client-Stored fds cfd g e in
      rw e (omega (arith, first.counts fd, held-accept_clients g calls fd))
]
