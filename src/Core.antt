-- ===== src/Core.antt =====
-- core/: the proxy cores and the selector that routes to them.
pub mod Types
pub mod Hy2
pub mod Sing
pub mod Xray
pub mod Selector
