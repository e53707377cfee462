-- ===== src/Hpke.antt =====
-- src/lib.rs: hybrid public key encryption over a crypto provider.
pub mod Errors
pub mod Mode
pub mod Keys
pub mod Config
pub mod Context
pub mod Schedule
pub mod Setup
pub mod Channel
pub mod Suites
pub mod Lifetime
pub mod NoPanic
pub mod Sessions
pub mod Threads
pub mod Delivery
pub mod SingleShot
pub mod Display
pub mod Tls
pub mod TestUtil
