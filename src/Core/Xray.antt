-- ===== src/Core/Xray.antt =====
-- core/xray: the users, the traffic and the links of the xray core.
pub mod Dispatcher
pub mod Dispatch
pub mod Sniffer
pub mod Accounts
pub mod Users
pub mod Kick
pub mod Inbound
pub mod Dns
pub mod Outbound
pub mod Node
