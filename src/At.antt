-- ===== src/At.antt =====
-- gateway-patched/internal/modem/at: the AT command layer of the modem.
pub mod Parser
pub mod Client
pub mod Clcc
pub mod Status
pub mod Adapter
pub mod Messages
pub mod Report
