-- ===== src/Node/Controller/Reload.antt =====
-- node/task.go: the branch of nodeInfoMonitor for a node that has changed.
use v2b_z.Prelude.{
  Bool, List, [], Option, none, some, ◌==◌, nat_eq, if◌then◌else◌, is_empty, Result, ok, err,
}
use v2b_z.Prelude.Int.{ℤ, int_eq}
use v2b_z.Prelude.Text.{Text, text_eq}
use v2b_z.Prelude.GoMap.{GoMap, lookup}
use v2b_z.Panel.{UserInfo}
use v2b_z.Panel.Node.{NodeInfo, tls_security}
use v2b_z.Limiter.Rules.{update_rule}
use v2b_z.Limiter.Registry.{add_limiter, delete_limiter, modify}
use v2b_z.Core.Types.{Core, Failure}
use v2b_z.Node.Options.{options_for_node}
use v2b_z.Node.Controller.{
  World, Outcome, returned, crashed, Answers, build_node_tag, check_intervals, users_or, set_alive,
}

module _ {S : Type 0} (server : Core S) (compiles : Text → Bool) (trim_space : Text → Text) where
  -- The part of the reload behind the certificate.
  unfoldable pub add_node_again : NodeInfo → World S → World S × Outcome
  unfolding check_intervals
  add_node_again node w =
      let c = w.controller in
      let (s, option, added) = server.add_node c.tag node c.active_options w.server in
      let w1 = record w { server = s; controller = record c { active_options = option } } in
      elim added [
        | err e ↦ (w1, crashed)
        | ok _ ↦
            let (s', users) =
              server.add_users (record { tag = c.tag; users = c.user_list; node_info = node }) s in
            elim users [
              | err e ↦ (record w1 { server = s' }, returned)
              | ok _ ↦ (
                record w1 { server = s'; controller = check_intervals node w1.controller },
                returned,
              )
            ]
      ]

  -- "Update limiter": only a node without a name gets a new limiter.
  unfoldable pub renew_limiter : NodeInfo → Option (GoMap ℤ ℤ) → World S → World S
  renew_limiter node alive w =
      let c = w.controller in
      if is_empty c.options.name
      then (let tag = build_node_tag c.api_host node in
          let (g, p) =
            add_limiter tag c.options.limit_config.speed_limit c.user_list (users_or [] alive)
              (delete_limiter tag w.limiters) in
          record w { controller = record c { tag = tag; limiter = p }; limiters = g })
      else w

  -- The alive list, the rules and the certificate; a rule that does not compile panics.
  unfoldable pub refresh_limiter :
      NodeInfo → Answers → Option (GoMap ℤ ℤ) → World S → World S × Outcome
  refresh_limiter node a alive w =
      let p = w.controller.limiter in
      let g = modify p (set_alive alive) w.limiters in
      elim (lookup p g.objects) [
        | none ↦ (record w { limiters = g }, crashed)
        | some l ↦ elim (update_rule compiles node.rules l) [
          | none ↦ (record w { limiters = g }, crashed)
          | some l' ↦
              let w' = record w { limiters = modify p (λ _. l') g } in
              if node.security == tls_security
              then elim a.cert [ some e ↦ (w', returned) | none ↦ add_node_again node w' ]
              else add_node_again node w'
        ]
      ]

  -- The new configuration is taken, and the old node is removed.
  unfoldable pub remove_node :
      NodeInfo → Option (List UserInfo) → World S → World S × Result Failure (Unit {0})
  remove_node node users w =
      let c = w.controller in
      let c' = record c {
        info = node;
        active_options = options_for_node trim_space c.options node;
        user_list = users_or c.user_list users;
        traffic = [];
      } in
      let (s, deleted) = server.del_node c.tag w.server in
      (record w { controller = c'; server = s }, deleted)

  -- The node has changed.
  unfoldable pub reload_node :
      NodeInfo → Option (List UserInfo) → Option (GoMap ℤ ℤ) → Answers → World S → World S × Outcome
  reload_node node users alive a w =
      let (w', deleted) = remove_node node users w in
      elim deleted [
        | err e ↦ (w', crashed)
        | ok _ ↦ refresh_limiter node a alive (renew_limiter node alive w')
      ]
