-- ===== src/AntiBan.antt =====
-- worker/src/antiBan.js: business hours, the circuit breaker of each account and surface, the
-- fingerprint of an account, and the proxy that its traffic leaves by.
pub mod BusinessHours
pub mod Breaker
pub mod Fingerprint
pub mod Egress
mod Tests
