-- ===== src/Node/Controller/Monitor.antt =====
-- node/task.go: nodeInfoMonitor, with its branch for a node that has not changed, and SpeedChecker;
-- node/user.go: the report; node/controller.go: Close.
use v2b_z.Prelude.{
  Bool, true, ◌&&◌, List, [], ◌∷◌, Option, none, some, nat_eq, if◌then◌else◌, is_empty, Result, ok,
  err,
}
use v2b_z.Prelude.Int.{ℤ, pos, int_eq, leb_ℤ, add64, mul64}
use v2b_z.Prelude.Text.{Text, text_eq}
use v2b_z.Prelude.GoMap.{GoMap, lookup, delete}
use v2b_z.Conf.{DynamicSpeedLimitConfig}
use v2b_z.Panel.{UserInfo, UserTraffic}
use v2b_z.Limiter.Types.{Limiter}
use v2b_z.Limiter.Users.{update_user, update_dynamic_speed_limit}
use v2b_z.Limiter.Online.{get_online_device}
use v2b_z.Limiter.Registry.{delete_limiter, modify}
use v2b_z.Core.Types.{Core, Failure}
use v2b_z.Task.{Task}
use v2b_z.Task
use v2b_z.Node.Users.{compare_user_list}
use v2b_z.Node.Report.{online_report}
use v2b_z.Node.Controller.{World, Outcome, returned, Answers, users_or, set_alive}
use v2b_z.Node.Controller.Reload.{reload_node}

module _ {S : Type 0} (server : Core S) (compiles : Text → Bool) (trim_space : Text → Text) where
  abbrev pub drop_traffic : List UserInfo → GoMap Text ℤ → GoMap Text ℤ
  drop_traffic [] m = m
  drop_traffic (u ∷ us) m = drop_traffic us (delete u.uuid m)

  -- What follows the calls of the core when they succeeded.
  unfoldable pub finish_users : List UserInfo → List UserInfo → List UserInfo → World S → World S
  finish_users deleted added users w =
      let c = w.controller in
      if is_empty added && is_empty deleted
      then record w { controller = record c { user_list = users } }
      else record w {
        limiters = modify c.limiter (update_user c.tag added deleted) w.limiters;
        controller = record c {
          user_list = users;
          traffic =
              if c.options.limit_config.enable_dynamic_speed_limit
              then drop_traffic deleted c.traffic
              else c.traffic;
        };
      }

  unfoldable pub add_new_users : List UserInfo → List UserInfo → List UserInfo → World S → World S
  add_new_users deleted added users w =
      if is_empty added
      then finish_users deleted added users w
      else (let c = w.controller in
          let (s, r) =
            server.add_users (record { tag = c.tag; users = added; node_info = c.info }) w.server in
          elim r [
            | err e ↦ record w { server = s }
            | ok _ ↦ finish_users deleted added users (record w { server = s })
          ])

  -- The node has not changed: only the users are compared.
  unfoldable pub sync_users : Option (List UserInfo) → Option (GoMap ℤ ℤ) → World S → World S
  sync_users users alive w =
      let c = w.controller in
      let w' = record w { limiters = modify c.limiter (set_alive alive) w.limiters } in
      let new = users_or [] users in
      let (deleted, added) = compare_user_list c.user_list new in
      if is_empty new
      then w'
      else if is_empty deleted
      then add_new_users deleted added new w'
      else (let (s, r) = server.del_users deleted c.tag c.info w'.server in
          elim r [
            | err e ↦ record w' { server = s }
            | ok _ ↦ add_new_users deleted added new (record w' { server = s })
          ])

  unfoldable pub node_info_monitor : Answers → World S → World S × Outcome
  node_info_monitor a w = elim a.node [
    | err e ↦ (w, returned)
    | ok node ↦ elim a.users [
      | err e ↦ (w, returned)
      | ok users ↦ elim a.alive [
        | err e ↦ (w, returned)
        | ok alive ↦ elim node [
          | some n ↦ reload_node server compiles trim_space n users alive a w
          | none ↦ (sync_users users alive w, returned)
        ]
      ]
    ]
  ]

  -- Close, of a controller whose certificate task and speed task are not running.
  unfoldable pub close : World S → World S × Result Failure (Unit {0})
  close w =
      let c = w.controller in
      let (s, r) = server.del_node c.tag w.server in
      (
        record {
          limiters = delete_limiter c.tag w.limiters;
          server = s;
          controller = record c {
            node_info_monitor = record c.node_info_monitor {
              task = Task.close c.node_info_monitor.task;
            };
            user_report = record c.user_report { task = Task.close c.user_report.task };
          };
        },
        r,
      )

  -- The traffic and the online report that are sent to the panel; an error of the core gives no
  -- traffic, and an error of the panel is logged.
  unfoldable pub report_user_traffic_task :
      World S → World S × List UserTraffic × Option (GoMap ℤ (List Text))
  report_user_traffic_task w =
      let c = w.controller in
      let (s, r) = server.get_user_traffic_slice c.tag true w.server in
      let traffic : List UserTraffic = elim r [ err e ↦ [] | ok ts ↦ ts ] in
      elim (lookup c.limiter w.limiters.objects) [
        | none ↦ (record w { server = s }, traffic, none)
        | some l ↦
            let (l', online) = get_online_device l in
            (
              record w { server = s; limiters = modify c.limiter (λ _. l') w.limiters },
              traffic,
              online_report c.options.device_online_min_traffic traffic online,
            )
      ]

-- SpeedChecker: the loop over the traffic that the map had at its start; `expire` is the end of the new
-- limits. An error of the limiter is logged.
unfoldable pub check_speeds :
    DynamicSpeedLimitConfig
    → Text
    → ℤ
    → GoMap Text ℤ
    → GoMap Text ℤ × Limiter
    → GoMap Text ℤ × Limiter
check_speeds config tag expire [] s = s
check_speeds config tag expire ((u, t) ∷ m) (traffic, l) = check_speeds config tag expire m (
    if leb_ℤ config.traffic t
    then (
      delete u traffic,
      users_or l (update_dynamic_speed_limit tag u config.speed_limit expire l),
    )
    else (traffic, l))

-- `now` is in seconds, and ExpireTime in minutes.
unfoldable pub speed_checker :
    DynamicSpeedLimitConfig → Text → ℤ → GoMap Text ℤ → Limiter → GoMap Text ℤ × Limiter
unfolding check_speeds
speed_checker config tag now traffic l =
    check_speeds config tag (add64 now (mul64 config.expire_time (pos 60))) traffic (traffic, l)
