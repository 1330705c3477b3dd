-- ===== src/Datapath.antt =====
-- forward-ebpf/src/main.rs and forward-common/src/lib.rs: the XDP program and its maps.
pub mod Checksum
pub mod Packet
pub mod Types
pub mod Maps
pub mod Session
pub mod Rewrite
pub mod Program
pub mod Samples
pub mod Tests
