-- ===== src/Tools/Stacks/Addresses.antt =====
-- Which addresses the output of examples/c/profile.c shows.
use ebpf_nids.Prelude.{
  ℕ, zero, suc, ◌≤◌, ◌≡◌, refl, ap, ◌∙◌, Bool, true, false, not, ◌&&◌, Option, none, some, List, [],
  ◌∷◌, ◌++◌, append-nil, take, length, arith, ◌==◌, if◌then◌else◌, Bool-cases, Option-cases, inl,
  inr,
}
use ebpf_nids.Prelude.Int.{ℤ}
use ebpf_nids.Tools.Stacks.{
  Sample, Inlined, Symbol, Line, not_symbolized, no_symbol, frame, inlined_frame, comm_line,
  kernel_title, no_kernel_stack, userspace_title, no_userspace_stack, blank_line, print_frame,
  print_inlined, show_entry, behind_first, show_entries, Symbolizer, show_stack_trace, is_positive,
  words, show_half, event_handler,
}

-- The addresses that lines show.
unfoldable pub addresses : List Line → List ℕ
addresses [] = []
addresses (no_symbol a ∷ ls) = a ∷ addresses ls
addresses (frame a name addr offset place ∷ ls) = a ∷ addresses ls
addresses (_ ∷ ls) = addresses ls

abbrev pub has_name : Symbol → Bool
has_name sym = elim sym.name [ none ↦ false | some name ↦ true ]

-- What is to be seen of an address with its symbols: the address, but nothing of an address 0 that
-- has a name, since its line is that of an inlined function.
unfoldable pub seen : ℕ → List Symbol → List ℕ
seen a [] = a ∷ []
seen a (sym ∷ syms) = if a == 0 && has_name sym then [] else a ∷ []

-- What is to be seen of a stack, each address with the symbols from its own on.
unfoldable pub seen_all : List ℕ → List Symbol → List ℕ
unfolding seen
seen_all [] syms = []
seen_all (a ∷ rest) syms = seen a syms ++ seen_all rest (behind_first syms)

-- No address is 0.
unfoldable pub NonZero : List ℕ → Type 0
NonZero [] = Unit {0}
NonZero (a ∷ rest) = ((a == 0) ≡ false) × NonZero rest

seen-NonZero : (a : ℕ) (syms : List Symbol) → (a == 0) ≡ false → seen a syms ≡ a ∷ []
unfolding seen
seen-NonZero a [] h = refl
seen-NonZero a (sym ∷ syms) h = rw h refl

-- Of a stack with no address 0 all addresses are seen.
pub seen_all-NonZero :
    (stack : List ℕ) (syms : List Symbol) → NonZero stack → seen_all stack syms ≡ stack
unfolding seen_all NonZero
seen_all-NonZero [] syms h = refl
seen_all-NonZero (a ∷ rest) syms h =
    rw (seen-NonZero a syms h.0) (ap (◌∷◌ a) (seen_all-NonZero rest (behind_first syms) h.1))

addresses-append : (xs ys : List Line) → addresses (xs ++ ys) ≡ addresses xs ++ addresses ys
unfolding addresses
addresses-append [] ys = refl
addresses-append (no_symbol a ∷ xs) ys = ap (◌∷◌ a) (addresses-append xs ys)
addresses-append (frame a n b o p ∷ xs) ys = ap (◌∷◌ a) (addresses-append xs ys)
addresses-append (not_symbolized ∷ xs) ys = addresses-append xs ys
addresses-append (inlined_frame n p ∷ xs) ys = addresses-append xs ys
addresses-append (comm_line a b c ∷ xs) ys = addresses-append xs ys
addresses-append (kernel_title ∷ xs) ys = addresses-append xs ys
addresses-append (no_kernel_stack ∷ xs) ys = addresses-append xs ys
addresses-append (userspace_title ∷ xs) ys = addresses-append xs ys
addresses-append (no_userspace_stack ∷ xs) ys = addresses-append xs ys
addresses-append (blank_line ∷ xs) ys = addresses-append xs ys

addresses-print_inlined : (is : List Inlined) → addresses (print_inlined is) ≡ []
unfolding addresses print_inlined print_frame
addresses-print_inlined [] = refl
addresses-print_inlined (i ∷ is) = addresses-print_inlined is

addresses-show_entry : (a : ℕ) (syms : List Symbol) → addresses (show_entry a syms) ≡ seen a syms
unfolding addresses show_entry print_frame seen
addresses-show_entry a [] = refl
addresses-show_entry a (sym ∷ syms) = elim (Option-cases sym.name) [
  | inl e ↦ rw (e, show_entry) (ground arith)
  | inr (name, e) ↦ elim (Bool-cases (a == 0)) [
    | inr nz ↦ rw (e, nz, show_entry) (ap (◌∷◌ a) (addresses-print_inlined sym.inlined))
    | inl z ↦ rw (e, z, show_entry) (addresses-print_inlined sym.inlined)
  ]
]

-- The lines came out, with these addresses.
unfoldable pub Shows : Option (List Line) → List ℕ → Type 0
Shows o shown = (ls : List Line) × (o ≡ some ls) × (addresses ls ≡ shown)

show_entries-Shows :
    (n : ℕ) (stack : List ℕ) (syms : List Symbol)
    → n ≤ length stack
    → Shows (show_entries n stack syms) (seen_all (take n stack) syms)
unfolding Shows show_entries addresses seen_all
show_entries-Shows zero stack syms le = ([], refl, refl)
show_entries-Shows (suc n) [] syms le = absurd (omega arith)
show_entries-Shows (suc n) (a ∷ stack) syms le =
    let (ls, e, shown) = show_entries-Shows n stack (behind_first syms) (omega arith) in
    (
      show_entry a syms ++ ls,
      rw e refl,
      addresses-append (show_entry a syms) ls ∙ rw (addresses-show_entry a syms, shown) refl,
    )

-- The addresses of a stack that are to be seen: those with the symbolizer's symbols, or none if it
-- fails.
unfoldable pub shown : Symbolizer → List ℕ → ℕ → ℕ → List ℕ
shown symbolize stack n pid = elim (symbolize pid (take n stack)) [
  | none ↦ []
  | some syms ↦ seen_all (take n stack) syms
]

unfoldable pub shown_half : Symbolizer → ℤ → List ℕ → ℕ → List ℕ
unfolding shown
shown_half symbolize sz stack pid =
    if not (is_positive sz) then [] else shown symbolize stack (words sz) pid

show_stack_trace-Shows :
    (symbolize : Symbolizer) (stack : List ℕ) (n pid : ℕ)
    → n ≤ length stack
    → Shows (show_stack_trace symbolize stack n pid) (shown symbolize stack n pid)
unfolding show_stack_trace shown Shows addresses
show_stack_trace-Shows symbolize stack n pid le =
    elim (symbolize pid (take n stack))
      as (λ o.
        Shows (elim o [ none ↦ some (not_symbolized ∷ []) | some syms ↦ show_entries n stack syms ])
          (elim o [ none ↦ [] | some syms ↦ seen_all (take n stack) syms ])) [
            | none ↦ (not_symbolized ∷ [], refl, refl)
            | some syms ↦ show_entries-Shows n stack syms le
          ]

-- A half of the output with a first line that shows no address.
show_half-Shows :
    (symbolize : Symbolizer) (title missing : Line) (sz : ℤ) (stack : List ℕ) (pid : ℕ)
    → addresses (title ∷ []) ≡ []
    → addresses (missing ∷ []) ≡ []
    → words sz ≤ length stack
    → Shows (show_half symbolize title missing sz stack pid) (shown_half symbolize sz stack pid)
unfolding show_half shown_half Shows
show_half-Shows symbolize title missing sz stack pid t m le =
    let (ls, e, a) = show_stack_trace-Shows symbolize stack (words sz) pid le in
    elim (Bool-cases (is_positive sz)) [
      | inl p ↦ rw (p, e) (title ∷ ls, refl, addresses-append (title ∷ []) ls ∙ rw (t, a) refl)
      | inr p ↦ rw p (missing ∷ [], refl, m)
    ]

addresses_both :
    (ks us : List Line) (a b : List ℕ)
    → addresses ks ≡ a
    → addresses us ≡ b
    → addresses (ks ++ (us ++ (blank_line ∷ []))) ≡ a ++ b
unfolding addresses
addresses_both ks us a b p q =
    addresses-append ks (us ++ (blank_line ∷ []))
    ∙ rw (p, addresses-append us (blank_line ∷ []), q) (ap (◌++◌ a) (append-nil b))

both_not : (p q : Bool) → (not p && not q) ≡ true → (p ≡ false) × (q ≡ false)
both_not false false e = (refl, refl)
both_not false true e = absurd (ground arith)
both_not true q e = absurd (ground arith)

-- What `event_handler` returns for sizes that are not both positive, and else.
abbrev pub status : Sample → ℕ
status e = if not (is_positive e.kstack_sz) && not (is_positive e.ustack_sz) then 1 else 0

-- The status and the addresses of a call that came to its end.
pub Handles : Symbolizer → Sample → Option (ℕ × List Line) → Type 0
Handles symbolize e o =
    (ls : List Line) × (o ≡ some (status e, ls))
    × (addresses ls
        ≡ shown_half symbolize e.kstack_sz e.kstack 0
          ++ shown_half symbolize e.ustack_sz e.ustack e.pid)

-- For a sample whose stacks are as long as their sizes say, `event_handler` reads nothing past their
-- ends, returns 1 where both sizes are not positive and 0 otherwise, and prints each address of the
-- kernel's stack and then of the user's stack once, in order, whatever functions are inlined there;
-- but an address 0 that has a name is printed without itself, and a stack that the symbolizer refuses
-- is left out.
pub event_handler_lem :
    (symbolize : Symbolizer) (e : Sample)
    → words e.kstack_sz ≤ length e.kstack
    → words e.ustack_sz ≤ length e.ustack
    → Handles symbolize e (event_handler symbolize e)
unfolding Handles event_handler Shows addresses shown_half
event_handler_lem symbolize e kl ul =
    let (ks, k, ka) =
      show_half-Shows symbolize kernel_title no_kernel_stack e.kstack_sz e.kstack 0 refl refl kl in
    let (us, u, ua) =
      show_half-Shows symbolize userspace_title no_userspace_stack e.ustack_sz e.ustack e.pid refl
        refl ul in
    elim (Bool-cases (not (is_positive e.kstack_sz) && not (is_positive e.ustack_sz))) [
      | inl b ↦
          let p : is_positive e.kstack_sz ≡ false =
            (both_not (is_positive e.kstack_sz) (is_positive e.ustack_sz) b).0 in
          let q : is_positive e.ustack_sz ≡ false =
            (both_not (is_positive e.kstack_sz) (is_positive e.ustack_sz) b).1 in
          rw (p, q) ([], refl, refl)
      | inr b ↦
          rw (b, k, u)
            (
              comm_line e.comm e.pid e.cpu_id ∷ (ks ++ (us ++ (blank_line ∷ []))),
              refl,
              addresses_both ks us _ _ ka ua,
            )
    ]
