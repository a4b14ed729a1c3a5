-- ===== src/Tests.antt =====
-- Small inputs for the theorems on the cores, the controller and the shared packages.
pub mod Fixtures
mod Hosts
mod Certificates
mod Inbounds
mod Cores
mod Shared
mod Nodes
mod Panels
mod Links
mod Hooks
mod Outbounds
mod Sniffers
