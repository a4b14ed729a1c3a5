-- ===== src/Node/Controller/Start.antt =====
-- node/controller.go: Start, and startTasks of node/task.go.
use v2b_z.Prelude.{nat_eq}
use v2b_z.Prelude.{ℕ}
use v2b_z.Prelude.{
  Bool, true, false, List, [], ◌∷◌, none, some, ◌==◌, if◌then◌else◌, is_empty, Result, ok, err,
  ◌||◌,
}
use v2b_z.Prelude.Int.{ℤ, int_eq}
use v2b_z.Prelude.Text.{Text, text, text_eq}
use v2b_z.Prelude.GoMap.{GoMap, lookup}
use v2b_z.Conf.Options.{Options}
use v2b_z.Panel.{UserInfo}
use v2b_z.Panel.Node.{NodeInfo, tls_security}
use v2b_z.Limiter.Rules.{update_rule}
use v2b_z.Limiter.Registry.{Limiters, add_limiter, modify}
use v2b_z.Core.Types.{Core, Failure, message, panicked}
use v2b_z.Task.{Task, new_task}
use v2b_z.Task
use v2b_z.Node.Options.{options_for_node}
use v2b_z.Node.Controller.{Periodic, World, Answers, build_node_tag, users_or}

-- What startTasks makes: the two tasks that every node has; whether the certificate task is started;
-- and whether the task of the speed checker is made, which is not started.
pub record Started (S : Type 0) : Type 0 where
  pub world : World S
  pub renews_cert : Bool
  pub has_speed_task : Bool

abbrev periodic : ℤ → Periodic
periodic interval = record { interval = interval; task = Task.start false new_task }

-- The switch on the certificate mode; `to_lower` and `trim_space` are those of package strings.
unfoldable pub needs_renewal : (Text → Text) → (Text → Text) → NodeInfo → Options → Bool
needs_renewal to_lower trim_space node active =
    if node.security == tls_security
    then (let mode : Text = elim active.cert_config [
      | none ↦ []
      | some c ↦ to_lower (trim_space c.cert_mode)
    ] in
        if mode == text "none" || is_empty mode || mode == text "file" || mode == text "self"
        then false
        else true)
    else false

module _ {S : Type 0} (server : Core S) (compiles : Text → Bool)
    (to_lower trim_space : Text → Text) where
  -- AddNode, AddUsers and startTasks, for the limiter at `p`.
  unfoldable pub start_node :
      Text
      → Options
      → Text
      → NodeInfo
      → List UserInfo
      → ℕ
      → S × Limiters
      → (S × Limiters) × Result Failure (Started S)
  unfolding needs_renewal
  start_node api_host options tag node users p (s, g) =
      let active = options_for_node trim_space options node in
      let (s1, active', added) = server.add_node tag node active s in
      elim added [
        | err e ↦ ((s1, g), err e)
        | ok _ ↦
            let (s2, r) =
              server.add_users (record { tag = tag; users = users; node_info = node }) s1 in
            elim r [
              | err e ↦ ((s2, g), err e)
              | ok n ↦ (
                (s2, g),
                ok (record {
                  world = record {
                    controller = record {
                      api_host = api_host;
                      options = options;
                      tag = tag;
                      limiter = p;
                      traffic = [];
                      user_list = users;
                      info = node;
                      active_options = active';
                      node_info_monitor = periodic node.pull_interval;
                      user_report = periodic node.push_interval;
                    };
                    server = s2;
                    limiters = g;
                  };
                  renews_cert = needs_renewal to_lower trim_space node active';
                  has_speed_task = options.limit_config.enable_dynamic_speed_limit;
                }),
              )
            ]
      ]

  -- The limiter with its rules, and the certificate.
  unfoldable pub start_limited :
      Text
      → Options
      → NodeInfo
      → List UserInfo
      → GoMap ℤ ℤ
      → Answers
      → S × Limiters
      → (S × Limiters) × Result Failure (Started S)
  start_limited api_host options node users alive a (s, g) =
      let tag = if is_empty options.name then build_node_tag api_host node else options.name in
      let (g1, p) = add_limiter tag options.limit_config.speed_limit users alive g in
      elim (lookup p g1.objects) [
        | none ↦ ((s, g1), err panicked)
        | some l ↦ elim (update_rule compiles node.rules l) [
          | none ↦ ((s, g1), err panicked)
          | some l' ↦
              let g2 = modify p (λ _. l') g1 in
              if node.security == tls_security
              then elim a.cert [
                | some e ↦ ((s, g2), err e)
                | none ↦ start_node api_host options tag node users p (s, g2)
              ]
              else start_node api_host options tag node users p (s, g2)
        ]
      ]

  unfoldable pub start :
      Text → Options → Answers → S × Limiters → (S × Limiters) × Result Failure (Started S)
  start api_host options a w = elim a.node [
    | err e ↦ (w, err e)
    | ok node ↦ elim a.users [
      | err e ↦ (w, err e)
      | ok users ↦ elim (users_or [] users) [
        | [] ↦ (w, err (message (text "add users error: not have any user")))
        | u ∷ us ↦ elim a.alive [
          | err e ↦ (w, err e)
          | ok alive ↦ elim node [
            | none ↦ (w, err panicked)
            | some n ↦ start_limited api_host options n (u ∷ us) (users_or [] alive) a w
          ]
        ]
      ]
    ]
  ]
