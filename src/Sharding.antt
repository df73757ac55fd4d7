-- ===== src/Sharding.antt =====
-- packages/utils/src/common: the shards of the network and their codecs.
pub mod RelayShard
pub mod Topics
