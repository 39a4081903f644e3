-- ===== src/Tools.antt =====
-- The tools beside the program: examples/c/ebpf/clean_maps.c and the sample programs that stand in
-- examples/.
pub mod Ledger
pub mod Polling
pub mod Strtol
pub mod Attach
pub mod Listen
pub mod Clean
pub mod Bootstrap
pub mod Tracecon
pub mod Profile
pub mod Sockfilter
pub mod TaskIter
pub mod Tc
pub mod Usdt
pub mod Probes
pub mod Stacks
mod Tests
mod ProfileTests
mod CliTests
mod WatchTests
mod CleanTests
mod ProbeTests
