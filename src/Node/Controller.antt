-- ===== src/Node/Controller.antt =====
-- node/controller.go and node/task.go: the controller of a node. What lies outside is a parameter: the
-- core (`server`, by the interface of core/interface.go), the answers of the panel, whether a
-- certificate request fails, and the library functions of Limiter.Rules and Node.Options.
pub mod Reload
pub mod Monitor
pub mod Start
pub mod Stranded
pub mod Named
use v2b_z.Prelude.{
  ℕ, zero, suc, ◌+◌, Bool, true, false, not, ◌&&◌, List, [], ◌∷◌, ◌++◌, Option, none, some, ◌==◌,
  nat_eq, leb, if◌then◌else◌, is_empty, Result, ok, err,
}
use v2b_z.Prelude.Int.{ℤ, pos, int_eq, leb_ℤ, add64, mul64}
use v2b_z.Prelude.Text.{Text, text, text_eq}
use v2b_z.Prelude.Decimal.{itoa}
use v2b_z.Prelude.GoMap.{GoMap, lookup, insert, delete}
use v2b_z.Conf.{LimitConfig, DynamicSpeedLimitConfig}
use v2b_z.Conf.Options.{Options}
use v2b_z.Panel.{UserInfo, UserTraffic}
use v2b_z.Panel.Node.{NodeInfo, tls_security}
use v2b_z.Limiter.Types.{Limiter}
use v2b_z.Limiter.Users.{update_user, update_dynamic_speed_limit}
use v2b_z.Limiter.Online.{get_online_device}
use v2b_z.Limiter.Rules.{update_rule}
use v2b_z.Limiter.Registry.{Limiters, add_limiter, delete_limiter, modify}
use v2b_z.Core.Types.{Core, Failure, message, panicked}
use v2b_z.Task.{Task}
use v2b_z.Task
use v2b_z.Node.Users.{compare_user_list}
use v2b_z.Node.Options.{options_for_node}
use v2b_z.Node.Report.{online_report}

pub record Periodic : Type 0 where
  pub interval : ℤ
  pub task : Task

-- A controller that Start has run. `limiter` is its pointer into the table of limiters.
pub record Controller : Type 0 where
  pub api_host : Text
  pub options : Options
  pub tag : Text
  pub limiter : ℕ
  pub traffic : GoMap Text ℤ
  pub user_list : List UserInfo
  pub info : NodeInfo
  pub active_options : Options
  pub node_info_monitor : Periodic
  pub user_report : Periodic

pub record World (S : Type 0) : Type 0 where
  pub controller : Controller
  pub server : S
  pub limiters : Limiters

-- How a call ends: it returns, or the process panics.
pub data Outcome : Type 0 where
  returned : Outcome
  crashed : Outcome

-- The answers of one round; `none` in an answer is a nil result.
pub record Answers : Type 0 where
  pub node : Result Failure (Option NodeInfo)
  pub users : Result Failure (Option (List UserInfo))
  pub alive : Result Failure (Option (GoMap ℤ ℤ))
  pub cert : Option Failure

-- fmt.Sprintf("[%s]-%s:%d", APIHost, node.Type, node.Id)
unfoldable pub build_node_tag : Text → NodeInfo → Text
build_node_tag host node = b'[' ∷ (host ++ (text "]-" ++ (node.type ++ (b':' ∷ itoa node.id))))

-- Interval = to; Close(); Start(false)
unfoldable pub restart : ℤ → Periodic → Periodic
restart to p = record { interval = to; task = Task.start false (Task.close p.task) }

-- The report task takes the pull interval.
unfoldable pub check_intervals : NodeInfo → Controller → Controller
unfolding restart
check_intervals node c = record c {
  node_info_monitor =
      if not (c.node_info_monitor.interval == node.pull_interval)
        && not (node.pull_interval == pos 0)
      then restart node.pull_interval c.node_info_monitor
      else c.node_info_monitor;
  user_report =
      if not (c.user_report.interval == node.push_interval) && not (node.push_interval == pos 0)
      then restart node.pull_interval c.user_report
      else c.user_report;
}

abbrev pub users_or {ℓ} : {A : Type ℓ} → A → Option A → A
users_or a none = a
users_or a (some b) = b

abbrev pub set_alive : Option (GoMap ℤ ℤ) → Limiter → Limiter
set_alive none l = l
set_alive (some a) l = record l { alive_list = a }
