-- ===== src/Tools/Stacks.antt =====
-- The output of examples/c/profile.c for a sample: `print_frame`, `show_stack_trace` and
-- `event_handler`. A printed line is its kind and what is filled into its format; the symbols are
-- what the symbolizer returns.
pub mod Addresses
use ebpf_nids.Prelude.{
  ℕ, zero, suc, ◌/◌, Bool, true, false, not, ◌&&◌, Option, none, some, List, [], ◌∷◌, ◌++◌, take,
  ltb, ◌==◌, if◌then◌else◌, ◌>>=◌,
}
use ebpf_nids.Prelude.Text.{Bytes}
use ebpf_nids.Prelude.Int.{ℤ, pos, negsuc}

-- `struct stacktrace_event`
pub record Sample : Type 0 where
  pub pid : ℕ
  pub cpu_id : ℕ
  pub comm : Bytes
  pub kstack_sz : ℤ
  pub ustack_sz : ℤ
  pub kstack : List ℕ
  pub ustack : List ℕ

-- The symbolizer's results; a pointer that may be NULL is an option.
pub record CodeInfo : Type 0 where
  pub dir : Option Bytes
  pub file : Option Bytes
  pub line : ℕ

pub record Inlined : Type 0 where
  pub name : Bytes
  pub code_info : CodeInfo

pub record Symbol : Type 0 where
  pub name : Option Bytes
  pub addr : ℕ
  pub offset : ℕ
  pub code_info : CodeInfo
  pub inlined : List Inlined

-- The place that a frame's line ends with.
pub data Place : Type 0 where
  nowhere : Place
  in_file : Bytes → ℕ → Place
  in_dir : Bytes → Bytes → ℕ → Place

pub data Line : Type 0 where
  not_symbolized : Line
  no_symbol : ℕ → Line
  frame : ℕ → Bytes → ℕ → ℕ → Place → Line
  inlined_frame : Bytes → Place → Line
  comm_line : Bytes → ℕ → ℕ → Line
  kernel_title no_kernel_stack userspace_title no_userspace_stack blank_line : Line

unfoldable pub place_of : CodeInfo → Place
place_of c = elim c.file [
  | none ↦ nowhere
  | some file ↦ elim c.dir [ none ↦ in_file file c.line | some dir ↦ in_dir dir file c.line ]
]

unfoldable pub print_frame : Bytes → ℕ → ℕ → ℕ → CodeInfo → Line
print_frame name input_addr addr offset c =
    if not (input_addr == 0)
    then frame input_addr name addr offset (place_of c)
    else inlined_frame name (place_of c)

unfoldable pub print_inlined : List Inlined → List Line
unfolding print_frame
print_inlined [] = []
print_inlined (i ∷ is) = print_frame i.name 0 0 0 i.code_info ∷ print_inlined is

-- The body of the loop for the address `a`: what is printed for its symbol, if it has one.
unfoldable pub show_entry : ℕ → List Symbol → List Line
unfolding print_inlined print_frame
show_entry a [] = no_symbol a ∷ []
show_entry a (sym ∷ syms) = elim sym.name [
  | none ↦ no_symbol a ∷ []
  | some name ↦ print_frame name a sym.addr sym.offset sym.code_info ∷ print_inlined sym.inlined
]

abbrev pub behind_first : List Symbol → List Symbol
behind_first [] = []
behind_first (sym ∷ syms) = syms

-- The loop over the first addresses of the stack; `none` is a read past its end.
unfoldable pub show_entries : ℕ → List ℕ → List Symbol → Option (List Line)
unfolding show_entry
show_entries zero stack syms = some []
show_entries (suc n) [] syms = none
show_entries (suc n) (a ∷ stack) syms = do
  rest ← show_entries n stack (behind_first syms)
  some (show_entry a syms ++ rest)

-- The symbolizer, by the process (0 for the kernel) and the addresses.
abbrev pub Symbolizer : Type 0
Symbolizer = ℕ → List ℕ → Option (List Symbol)

unfoldable pub show_stack_trace : Symbolizer → List ℕ → ℕ → ℕ → Option (List Line)
unfolding show_entries
show_stack_trace symbolize stack stack_sz pid = elim (symbolize pid (take stack_sz stack)) [
  | none ↦ some (not_symbolized ∷ [])
  | some syms ↦ show_entries stack_sz stack syms
]

abbrev pub is_positive : ℤ → Bool
is_positive (pos n) = ltb 0 n
is_positive (negsuc n) = false

-- `sz / sizeof(__u64)`, where `sz` is positive
abbrev pub words : ℤ → ℕ
words (pos n) = n / 8
words (negsuc n) = 0

-- One of the two halves of the output.
unfoldable pub show_half : Symbolizer → Line → Line → ℤ → List ℕ → ℕ → Option (List Line)
unfolding show_stack_trace
show_half symbolize title missing sz stack pid =
    if not (is_positive sz)
    then some (missing ∷ [])
    else do lines ← show_stack_trace symbolize stack (words sz) pid; some (title ∷ lines)

-- `event_handler`: what it returns and prints.
unfoldable pub event_handler : Symbolizer → Sample → Option (ℕ × List Line)
unfolding show_half
event_handler symbolize e =
    if not (is_positive e.kstack_sz) && not (is_positive e.ustack_sz) then some (1, []) else do
      kernel ← show_half symbolize kernel_title no_kernel_stack e.kstack_sz e.kstack 0
      user ← show_half symbolize userspace_title no_userspace_stack e.ustack_sz e.ustack e.pid
      some (0, comm_line e.comm e.pid e.cpu_id ∷ (kernel ++ (user ++ (blank_line ∷ []))))
