-- ===== src/Limiter.antt =====
-- limiter/limiter.go: the state of a limiter and the users that it knows. The operations on the
-- online devices, the speed and the rules are in the modules below.
pub mod Types
pub mod Users
pub mod Speed
pub mod Check
mod Tests
pub mod Online
pub mod Rules
pub mod Registry
