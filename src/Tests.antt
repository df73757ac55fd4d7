-- ===== src/Tests.antt =====
-- Concrete runs of the SDS code, and each theorem of the results at one of them.
mod Fixtures
mod Filters
mod Histories
mod Repairs
mod Channels
mod Statuses
mod Codecs
mod Retries
mod Reliables
mod Tasks
mod Stores
mod Peers
