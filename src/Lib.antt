-- ===== src/Lib.antt =====
-- eBPF-NIDS: the XDP program that filters and watches packets in the kernel, and the loader that
-- attaches it, reads what it finds and sends it to the backend.
--
-- The parts and how they meet. The data plane (project_submit/ebpf_control/src/xdp_blacklist.bpf.c)
-- runs on each packet. It looks its source up in the blacklist map, counts SYN packets by source,
-- keeps a bitmap of the low ports that a source has probed, counts packets and bytes, and writes
-- alerts to a ring buffer. The loader (project_submit/ebpf_control/src/loader.c) reads a
-- configuration file, attaches the program, listens on a Unix socket, turns alerts and flow
-- statistics into JSON lines for each client, reloads its configuration on SIGHUP, and cleans up on
-- SIGINT and SIGTERM. The two share the flow statistics map and the ring buffer.
--
-- Which file models what. Kernel: the value types of the maps, and the maps and the ring buffer as
-- interfaces with the kernel's documented laws; Kernel/Tables has bounded tables that meet the
-- laws. Xdp/Flow, Xdp/Syn, Xdp/Scan: update_flow_stats, check_syn_flood, check_port_scan.
-- Xdp/Packet: the header accesses as loads that may fail. Xdp/Firewall: xdp_firewall, which
-- composes them. Xdp/Filter: the plain blacklist filter of examples/c/xdp_blacklist.bpf.c.
-- Xdp/Earlier: the entry point of examples/c/ebpf/xdp_blacklist.bpf.c. Xdp/Parse:
-- examples/c/xdp_parse_ip.bpf.c and examples/c/xdp_count.bpf.c. Loader/Text: trim and the C
-- library's part in reading the configuration. Loader/Config: app_config, config_defaults,
-- parse_xdp_mode, load_config_file; Loader/Config/Reload: reload_config_runtime. Loader/Clients:
-- the slots, accept_clients, broadcast_json_line. Loader/Json: the message texts. Loader/Publish:
-- handle_alert. Loader/Rates: the cache and report_flow_rate. Loader/Stats: read_and_report_stats.
-- Loader/System: the globals, sig_handler, open_log_file, cleanup. Loader/Log: app_log.
-- Loader/Startup: main up to its loop. Loader/Loop: the loop and main. Pipeline: the way of an
-- alert from check_syn_flood through the ring buffer and the loop to the clients;
-- Pipeline/Traffic: that of the counters to the reported rates; Pipeline/Flows: that of the
-- counters through the statistics map to the lines on a client's connection; Pipeline/System: the
-- data plane and the loop side by side, with packets and rounds in any order. A file below one of
-- these holds its proofs; Tests files hold runs. Tools: programs of the repository that run by
-- themselves, under examples/. Tools/Ledger has what they acquire and release, Tools/Polling their
-- polling loops, Tools/Strtol the C library's strtol. Tools/Attach: main of
-- examples/c/xdp_blacklist.c and of examples/c/xdp_parse_ip.c. Tools/Listen: handle_alert and main
-- of examples/c/rb_listen.c and of examples/c/ebpf/test_ringbuf.c. Tools/Clean: clean_map of
-- examples/c/ebpf/clean_maps.c, which empties a map; Tools/Clean/Daemon: its main.
-- Tools/Bootstrap: handle_exec and handle_exit of examples/c/bootstrap.bpf.c;
-- Tools/Bootstrap/Legacy: those of examples/c/bootstrap_legacy.bpf.c; Tools/Bootstrap/Cli:
-- parse_arg, handle_event and main of examples/c/bootstrap.c. Tools/Sockfilter: socket_handler of
-- examples/c/sockfilter.bpf.c; Tools/Sockfilter/Cli: examples/c/sockfilter.c. Tools/TaskIter:
-- get_tasks of examples/c/task_iter.bpf.c; Tools/TaskIter/Cli: examples/c/task_iter.c. Tools/Tc:
-- examples/c/tc.bpf.c and examples/c/tc.c. Tools/Usdt: main of examples/c/usdt.c. Tools/Tracecon:
-- the probes of examples/rust/tracecon/src/bpf/tracecon.bpf.c. Tools/Profile and Tools/Stacks:
-- main and the output of examples/c/profile.c; Tools/Profile/Samples: examples/c/profile.bpf.c.
-- Tools/Bootstrap/Cli/Legacy: main of examples/c/bootstrap_legacy.c, whose options and lines are
-- those of bootstrap.c. Tools/Clean/Single: examples/c/clean_maps.c. Tools/Probes: the handlers of
-- minimal.bpf.c, minimal_ns.bpf.c, minimal_legacy.bpf.c, ksyscall.bpf.c, kprobe.bpf.c,
-- fentry.bpf.c and lsm.bpf.c in examples/c; Tools/Probes/Mains: main of the programs that attach
-- them and of examples/c/uprobe.c; Tools/Probes/Users: examples/c/uprobe.bpf.c,
-- examples/c/usdt.bpf.c and examples/rust/xdp/src/bpf/xdppass.bpf.c. The maps of the probes are
-- the interface of Kernel/Tracking.
--
-- Numbers. Words are natural numbers with their wrap-around written out; addresses are 32-bit words
-- in the memory order of a little-endian machine. `int` values are integers (Prelude/Int).
--
-- Outside the repository. What the kernel, the BPF library and the C library's system calls answer
-- is an argument of the functions that use it: a map state, the result of each `accept` and
-- `send`, whether the kernel detaches the program, the bytes of a file, the time. Functions of the
-- C library that only compute (strcmp, snprintf, fgets, atoi and strtol as in glibc, inet_ntop)
-- are modelled. The per-CPU map is modelled at one CPU, and the program runs on one packet at a
-- time; only Xdp/Races interleaves CPUs, on the shared counters of update_flow_stats and the words
-- of check_port_scan's bitmap.
--
-- Fuel. The loop of read_and_report_stats follows the kernel's iteration of a map that may change,
-- so it takes fuel; where the iteration goes through n keys, n is enough. The loop of main takes
-- one tick for each round. clean_map takes fuel; one more than the number of keys is enough. The
-- polling and reading loops of the tools take one answer for each round.
--
-- Not modelled: the fixed texts for the terminal (print_usage); the generated skeleton headers; the
-- Python and Rust programs; what libbpf itself prints.
pub mod Prelude
pub mod Kernel
pub mod Xdp
pub mod Loader
pub mod Pipeline
pub mod Tools
