-- ===== src/Tools/ProfileTests.antt =====
-- Runs of the profiler, and its theorems at concrete inputs.
use ebpf_nids.Prelude.{suc, zero, Bool, true, ◌≡◌, refl, false, none, some, [], ◌∷◌}
use ebpf_nids.Prelude.Text.{codes}
use ebpf_nids.Tools.Profile.{
  Opt, frequency, Options, at_least_one, parse_options, Resource, online_mask, skel, symbolizer,
  ring_buf, pefds_array, links_array, perf_fd, link, Answers, blank_slots, add_slot, give_up,
  attach_cpus, destroy_links, close_pefds, free_slots, cleanup, poll_and_finish, run_profile,
}
use ebpf_nids.Loader.Text.{atoi}
use ebpf_nids.Tools.Ledger.{count}
use ebpf_nids.Tools.Profile.Release.{is_link, online_count, run_profile_lem}
use ebpf_nids.Prelude.Int.{pos}
use ebpf_nids.Tools.Stacks.{
  Sample, CodeInfo, Symbolizer, nowhere, not_symbolized, no_symbol, frame, inlined_frame, comm_line,
  place_of, kernel_title, userspace_title, blank_line, print_frame, print_inlined, show_entry,
  show_entries, show_stack_trace, show_half, event_handler,
}
use ebpf_nids.Tools.Profile.Samples.{PerfEvent, profile}

-- Two processors are online, and the second one cannot be attached.
abbrev half_attached : Answers
half_attached = record {
  mask_error = 0;
  cpus =
      record { online = true; perf_event_open = some 11; attaches = true }
      ∷ record { online = false; perf_event_open = none; attaches = false }
      ∷ record { online = true; perf_event_open = some 12; attaches = false }
      ∷ [];
  open_and_load = true;
  symbolizer_new = true;
  ring_buffer_new = true;
}

gives_back :
    (run_profile half_attached).released
    ≡ link 0
      ∷ links_array
      ∷ perf_fd 11
      ∷ perf_fd 12
      ∷ pefds_array
      ∷ ring_buf
      ∷ skel
      ∷ symbolizer
      ∷ online_mask
      ∷ []
unfolding run_profile poll_and_finish attach_cpus add_slot give_up blank_slots cleanup free_slots
    destroy_links close_pefds
gives_back = refl

run_profile_lem_example :
    ((P : Resource → Bool)
      → count P (run_profile half_attached).acquired ≡ count P (run_profile half_attached).released)
    × ((run_profile half_attached).polled ≡ true
        → (count is_link (run_profile half_attached).acquired ≡ online_count half_attached.cpus)
          × ((run_profile half_attached).status ≡ 0))
run_profile_lem_example = run_profile_lem half_attached

abbrev default_options : Options
default_options = record { freq = 1; sw_event = false }

parsed :
    parse_options default_options (Opt.sw_event ∷ frequency (codes "99") ∷ [])
    ≡ some (record { freq = 99; sw_event = true })
unfolding parse_options at_least_one atoi
parsed = refl

parse_zero : parse_options default_options (frequency (codes "0") ∷ []) ≡ some default_options
unfolding parse_options at_least_one atoi
parse_zero = refl

abbrev no_info : CodeInfo
no_info = record { dir = none; file = none; line = 0 }

-- The kernel's addresses have a symbol with a function that is inlined there; the user's have none.
abbrev symbols : Symbolizer
symbols zero addresses = some (
    record {
      name = some (codes "f");
      addr = 4096;
      offset = 1;
      code_info = no_info;
      inlined = record { name = codes "g"; code_info = no_info } ∷ [];
    }
    ∷ [])
symbols (suc pid) addresses = none

abbrev sample : Sample
sample = record {
  pid = 7;
  cpu_id = 1;
  comm = codes "sh";
  kstack_sz = pos 16;
  ustack_sz = pos 8;
  kstack = 4097 ∷ 5000 ∷ [];
  ustack = 9 ∷ [];
}

-- Process 7 on the second processor.
abbrev perf_event : PerfEvent
perf_event = record {
  pid_tgid = 30064771080;
  cpu_id = 1;
  reserved = true;
  comm = some (codes "sh");
  kstack = record { size = pos 16; addresses = 4097 ∷ 5000 ∷ [] };
  ustack = record { size = pos 8; addresses = 9 ∷ [] };
}

profiled : profile perf_event ≡ (0, some sample)
unfolding profile
profiled = refl

prints :
    event_handler symbols sample
    ≡ some (
      0,
      comm_line (codes "sh") 7 1
          ∷ kernel_title
          ∷ frame 4097 (codes "f") 4096 1 nowhere
          ∷ inlined_frame (codes "g") nowhere
          ∷ no_symbol 5000
          ∷ userspace_title
          ∷ not_symbolized
          ∷ blank_line
          ∷ [],
    )
unfolding event_handler place_of show_half show_stack_trace show_entries show_entry print_inlined
    print_frame
prints = refl
