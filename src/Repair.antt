-- ===== src/Repair.antt =====
-- packages/sds/src/message_channel/repair: the buffers of the SDS-R repair protocol and their manager.
pub mod Buffer
pub mod Outgoing
pub mod Incoming
pub mod Manager
