-- ===== src/Node.antt =====
-- node/: the controller of a node, which keeps a core, a limiter and the panel in step.
pub mod Users
pub mod Options
pub mod Report
pub mod Controller
pub mod Certs
