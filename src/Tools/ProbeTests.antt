-- ===== src/Tools/ProbeTests.antt =====
-- Runs of the sample programs that attach a probe and of the tool for traffic control, and their theorems at concrete inputs.
use ebpf_nids.Prelude.{take, drop, false, ◌++◌, none, ◌≡◌, refl, true, some, [], ◌∷◌, replicate}
use ebpf_nids.Prelude.Text.{codes}
use ebpf_nids.Prelude.Int.{pos, negsuc}
use ebpf_nids.Xdp.Packet.{load, load16}
use ebpf_nids.Tools.Ledger.{skeleton, tc_filter}
use ebpf_nids.Tools.Tc
use ebpf_nids.Tools.Tc.{tc_ingress, is_zero, is_eexist, cleanup, tc_attached, tc_main}
use ebpf_nids.Tools.Probes.{Caller, minimal_handle_tp, entry_probe, lsm_bpf}
use ebpf_nids.Tools.Probes.Mains
use ebpf_nids.Xdp.Firewall.{pass}
use ebpf_nids.Tools.Probes.Users.{
  sub_entry, uprobe_round, uprobe_sub, uprobe_add, uretprobe_add, xdp_pass,
}
use ebpf_nids.Tools.Probes.Mains.{minimal_main, minimal_ns_main, minimal_legacy_main, kprobe_main}
use ebpf_nids.Tools.Probes.Own.{by_pid, in_namespace, traced, Watches, Leaves, minimal_programs}
use ebpf_nids.Tools.Ledger.{Balanced}
use ebpf_nids.Tools.Tc.Release.{Releases, tc_main-Releases}

prints_packet :
    tc_ingress 0x0800 (replicate 16 0 ++ (0 ∷ 84 ∷ (replicate 4 0 ++ (64 ∷ replicate 20 0))))
    ≡ some (0, (84, 64) ∷ [])
unfolding tc_ingress load16 load
prints_packet = refl

-- The hook stands already.
abbrev answers : Tc.Answers
answers = record {
  open_and_load = true;
  hook_create = negsuc 16;
  attach = pos 0;
  signal = 0;
  detach = pos 0;
}

leaves_hook : (tc_main answers).released ≡ tc_filter ∷ skeleton ∷ []
unfolding tc_main tc_attached cleanup is_zero is_eexist
leaves_hook = refl

tc_main-Releases_example : Releases answers (tc_main answers)
tc_main-Releases_example = tc_main-Releases answers

-- The system and the library let all programs be attached; the program's id is 7, and 2 in the
-- namespace.
abbrev works : Mains.Answers
works = record {
  opens = true;
  getpid = 7;
  stat = some (4, 5);
  load = pos 0;
  update_elem = pos 0;
  uprobe_errno = 0;
  uretprobe_errno = 0;
  attach = pos 0;
  signal_ok = true;
}

-- Two processes call.
abbrev first_caller : Caller
first_caller = record { tgid = 7; tid = 8; ns_pid = λ dev ino. 2 }

abbrev second_caller : Caller
second_caller = record { tgid = 9; tid = 1; ns_pid = λ dev ino. 7 }

prints_own :
    traced (minimal_handle_tp 7) (first_caller ∷ second_caller ∷ first_caller ∷ []) ≡ 7 ∷ 7 ∷ []
unfolding traced minimal_handle_tp
prints_own = refl

no_signal : entry_probe 30064771080 (codes "sh") (pos 9) (pos 0) ≡ none
unfolding entry_probe
no_signal = refl

blocks_bpf : lsm_bpf (pos 0) ≡ (negsuc 0, true)
unfolding lsm_bpf
blocks_bpf = refl

-- The status of kprobe.c is 0 where its signal handler cannot be set.
no_handler : kprobe_main (record works { signal_ok = false }) [] ≡ some (Mains.cleanup (pos 0))
unfolding kprobe_main is_zero
no_handler = refl

-- In the round 46341 the square is above what an `int` holds.
square_wraps : take 1 (drop 2 (uprobe_round 46341)) ≡ sub_entry (negsuc 2147479014) (pos 46341) ∷ []
unfolding uprobe_round uprobe_sub uprobe_add uretprobe_add
square_wraps = refl

passes_all : xdp_pass (1 ∷ 2 ∷ []) ≡ (pass, 2)
unfolding xdp_pass
passes_all = refl

minimal_programs_example :
    Watches Balanced by_pid works.getpid (minimal_main works)
    × Watches Balanced by_pid works.getpid (minimal_legacy_main works)
    × Watches (Leaves works.stat) (in_namespace works.stat) works.getpid (minimal_ns_main works)
minimal_programs_example = minimal_programs works
