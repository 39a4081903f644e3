-- ===== src/Xdp.antt =====
-- The data plane: project_submit/ebpf_control/src/xdp_blacklist.bpf.c.
pub mod Flow
pub mod Syn
pub mod Scan
pub mod Races
pub mod Packet
pub mod Firewall
pub mod Filter
pub mod Earlier
pub mod Parse
mod Tests
