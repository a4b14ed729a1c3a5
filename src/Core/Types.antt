-- ===== src/Core/Types.antt =====
-- core/interface.go: what a controller asks of a core. A core is a state `S` with these operations;
-- an operation that fails returns the state that it leaves behind, too. AddNode gets a pointer to the
-- options, and returns what they are after it.
use v2b_z.Prelude.{ℕ, Bool, List, Result}
use v2b_z.Prelude.Text.{Text}
use v2b_z.Panel.{UserInfo, UserTraffic}
use v2b_z.Panel.Node.{NodeInfo}
use v2b_z.Conf.Options.{Options}

-- A message, or a panic of the Go runtime.
pub data Failure : Type 0 where
  message : Text → Failure
  panicked : Failure

pub record AddUsersParams : Type 0 where
  pub tag : Text
  pub users : List UserInfo
  pub node_info : NodeInfo

pub record Core (S : Type 0) : Type 0 where
  pub start : S → S × Result Failure (Unit {0})
  pub close : S → S × Result Failure (Unit {0})
  pub add_node : Text → NodeInfo → Options → S → S × Options × Result Failure (Unit {0})
  pub del_node : Text → S → S × Result Failure (Unit {0})
  pub add_users : AddUsersParams → S → S × Result Failure ℕ
  pub get_user_traffic_slice : Text → Bool → S → S × Result Failure (List UserTraffic)
  pub del_users : List UserInfo → Text → NodeInfo → S → S × Result Failure (Unit {0})
  pub protocols : S → List Text
  pub type : S → Text
