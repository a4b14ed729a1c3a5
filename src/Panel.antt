-- ===== src/Panel.antt =====
-- api/panel/user.go: the records that the panel and the node exchange.

pub mod Tls
pub mod Routes
pub mod Node
pub mod Certificate
pub mod Decode
pub mod Finish
pub mod Client
use v2b_z.Prelude.Int.{ℤ}
use v2b_z.Prelude.Text.{Text}

pub record OnlineUser : Type 0 where
  pub uid : ℤ
  pub ip : Text

pub record UserInfo : Type 0 where
  pub id : ℤ
  pub uuid : Text
  pub speed_limit : ℤ
  pub device_limit : ℤ

pub record UserTraffic : Type 0 where
  pub uid : ℤ
  pub upload : ℤ
  pub download : ℤ
