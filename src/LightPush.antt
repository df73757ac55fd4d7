-- ===== src/LightPush.antt =====
-- packages/sdk/src/light_push: how the SDK sends again.
pub mod RetryManager
