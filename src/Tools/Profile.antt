-- ===== src/Tools/Profile.antt =====
-- `main` of examples/c/profile.c, the sampling profiler: its options, what it acquires before it
-- polls, and its clean-up. What the system and the libraries answer is an argument, and `malloc`
-- and `calloc`, which the code does not check, have memory.
pub mod Release
pub mod Samples
pub mod Frequency
use ebpf_nids.Prelude.{
  ℕ, suc, ◌≡◌, Bool, true, false, not, ◌||◌, Option, none, some, List, [], ◌∷◌, ◌++◌, ltb, ◌==◌,
  if◌then◌else◌,
}
use ebpf_nids.Prelude.Text.{Bytes}
use ebpf_nids.Loader.Text.{atoi}
use ebpf_nids.Prelude.Int.{ℤ, pos, negsuc}

-- An option as `getopt_long` returns it; `help` is -h or one that it does not know.
pub data Opt : Type 0 where
  frequency : Bytes → Opt
  sw_event help : Opt

pub record Options : Type 0 where
  pub freq : ℕ
  pub sw_event : Bool

unfoldable pub at_least_one : ℤ → ℕ
at_least_one (pos n) = if ltb n 1 then 1 else n
at_least_one (negsuc n) = 1

-- The loop over the options; `none` where it prints the help and `main` returns 1.
unfoldable pub parse_options : Options → List Opt → Option Options
unfolding at_least_one
parse_options o [] = some o
parse_options o (frequency arg ∷ opts) =
    parse_options (record o { freq = at_least_one (atoi arg) }) opts
parse_options o (Opt.sw_event ∷ opts) = parse_options (record o { sw_event = true }) opts
parse_options o (help ∷ opts) = none

-- What `main` holds and gives back.
pub data Resource : Type 0 where
  online_mask skel symbolizer ring_buf pefds_array links_array : Resource
  perf_fd link : ℕ → Resource

-- A processor: whether it is online, what `perf_event_open` returns for it, and whether the program
-- can be attached there.
pub record Cpu : Type 0 where
  pub online : Bool
  pub perf_event_open : Option ℕ
  pub attaches : Bool

-- `pefds[cpu]`, `none` for -1, and `links[cpu]`, `none` for NULL.
pub record Slot : Type 0 where
  pub pefd : Option ℕ
  pub link : Option ℕ

abbrev pub empty_slot : Slot
empty_slot = record { pefd = none; link = none }

unfoldable pub blank_slots : List Cpu → List Slot
blank_slots [] = []
blank_slots (c ∷ cs) = empty_slot ∷ blank_slots cs

-- The arrays after the loop, what it acquired in its order, and whether it went through.
pub record Attached : Type 0 where
  pub slots : List Slot
  pub acquired : List Resource
  pub ok : Bool

unfoldable pub add_slot : Slot → List Resource → Attached → Attached
add_slot s rs a = record { slots = s ∷ a.slots; acquired = rs ++ a.acquired; ok = a.ok }

-- A failure at a processor: the slots of those behind it stay empty.
unfoldable pub give_up : Slot → List Resource → List Cpu → Attached
unfolding blank_slots
give_up s rs cs = record { slots = s ∷ blank_slots cs; acquired = rs; ok = false }

-- The loop over the processors from `cpu` on.
unfoldable pub attach_cpus : ℕ → List Cpu → Attached
unfolding add_slot give_up
attach_cpus cpu [] = record { slots = []; acquired = []; ok = true }
attach_cpus cpu (c ∷ cs) =
    let rest = attach_cpus (suc cpu) cs in
    if not c.online then add_slot empty_slot [] rest else elim c.perf_event_open [
      | none ↦ give_up empty_slot [] cs
      | some fd ↦
          let opened : Slot = record { pefd = some fd; link = none } in
          if not c.attaches
          then give_up opened (perf_fd fd ∷ []) cs
          else add_slot (record opened { link = some cpu }) (perf_fd fd ∷ link cpu ∷ []) rest
    ]

-- The variables that the clean-up reads. `slots` is `none` where both arrays are NULL.
pub record Held : Type 0 where
  pub online_mask : Bool
  pub skel : Bool
  pub symbolizer : Bool
  pub ring_buf : Bool
  pub slots : Option (List Slot)

unfoldable pub destroy_links : List Slot → List Resource
destroy_links [] = []
destroy_links (s ∷ ss) =
    let rest = destroy_links ss in elim s.link [ none ↦ rest | some cpu ↦ link cpu ∷ rest ]

unfoldable pub close_pefds : List Slot → List Resource
close_pefds [] = []
close_pefds (s ∷ ss) =
    let rest = close_pefds ss in elim s.pefd [ none ↦ rest | some fd ↦ perf_fd fd ∷ rest ]

abbrev pub freed : Bool → Resource → List Resource
freed b r = if b then r ∷ [] else []

unfoldable pub free_slots : Option (List Slot) → List Resource
unfolding destroy_links close_pefds
free_slots none = []
free_slots (some slots) =
    destroy_links slots ++ (links_array ∷ (close_pefds slots ++ (pefds_array ∷ [])))

-- What stands behind the label `cleanup`, in its order.
unfoldable pub cleanup : Held → List Resource
unfolding free_slots
cleanup h =
    free_slots h.slots
    ++ (freed h.ring_buf ring_buf
        ++ (freed h.skel skel
            ++ (freed h.symbolizer symbolizer ++ freed h.online_mask online_mask)))

-- What the libraries answer. `mask_error` is the error number of `parse_cpu_mask_file`, 0 if it has
-- none; `cpus` are the possible processors, empty where their number is not positive.
pub record Answers : Type 0 where
  pub mask_error : ℕ
  pub cpus : List Cpu
  pub open_and_load : Bool
  pub symbolizer_new : Bool
  pub ring_buffer_new : Bool

-- The exit status, and what was acquired and released.
pub record Run : Type 0 where
  pub status : ℕ
  pub acquired : List Resource
  pub released : List Resource
  pub polled : Bool

-- The way to the label, with what is held there.
abbrev pub finish : ℕ → Bool → Held → List Resource → Run
finish status polled h acquired = record {
  status = status;
  acquired = acquired;
  released = cleanup h;
  polled = polled;
}

abbrev pub nothing_held : Held
nothing_held = record {
  online_mask = false;
  skel = false;
  symbolizer = false;
  ring_buf = false;
  slots = none;
}

-- With the slots at hand. The polling ends where `ring_buffer__poll` fails, and then `err` is 0.
unfoldable pub poll_and_finish : Attached → Run
unfolding cleanup
poll_and_finish a =
    finish (if a.ok then 0 else 1) a.ok
      (record {
        online_mask = true;
        skel = true;
        symbolizer = true;
        ring_buf = true;
        slots = some a.slots;
      })
      (online_mask ∷ skel ∷ symbolizer ∷ ring_buf ∷ pefds_array ∷ links_array ∷ a.acquired)

-- `main` behind its options.
unfoldable pub run_profile : Answers → Run
unfolding poll_and_finish attach_cpus cleanup
run_profile w =
    let masked : Held = record nothing_held { online_mask = true } in
    let loaded : Held = record masked { skel = true } in
    if not (w.mask_error == 0) then finish w.mask_error false nothing_held [] else elim w.cpus [
      | [] ↦ finish 1 false masked (online_mask ∷ [])
      | c ∷ cs ↦
          if not w.open_and_load
          then finish 1 false masked (online_mask ∷ [])
          else if not w.symbolizer_new
          then finish 1 false loaded (online_mask ∷ skel ∷ [])
          else if not w.ring_buffer_new
          then finish 1 false (record loaded { symbolizer = true })
              (online_mask ∷ skel ∷ symbolizer ∷ [])
          else poll_and_finish (attach_cpus 0 (c ∷ cs))
    ]
