-- ===== src/Tests.antt =====
-- Runs of the theorems at concrete inputs.
pub mod ActionTests
pub mod Office
pub mod Port
pub mod Lines
pub mod CallTests
pub mod SipTests
pub mod SmsTests
pub mod ApiTests
pub mod SdpTests
pub mod PushTests
