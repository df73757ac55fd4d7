-- ===== src/Reliable.antt =====
-- packages/sdk/src/reliable_channel: what the SDK keeps about a reliable channel.
pub mod SyncStatus
pub mod QueryOnConnect
pub mod RetryManager
pub mod MissingMessageRetriever
pub mod ReliableChannel
