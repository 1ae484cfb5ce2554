-- ===== src/Sip.antt =====
-- gateway-patched/internal/sip: the SIP side of the gateway.
pub mod Message
pub mod Session
pub mod Teardown
pub mod Server
pub mod Push
pub mod Chat
