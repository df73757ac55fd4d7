-- ===== src/Enr.antt =====
-- packages/enr/src: the fields of a node record that Waku adds, in bytes.
pub mod Waku2
pub mod Multiaddrs
