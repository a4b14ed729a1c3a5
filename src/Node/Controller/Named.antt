-- ===== src/Node/Controller/Named.antt =====
-- node/task.go: the limiter of a node with a name in the configuration.
use v2b_z.Prelude.{
  ℕ, ◌≡◌, refl, Bool, false, List, Option, none, some, arith, is_empty, Option-cases, inl, inr,
  nat_eq,
}
use v2b_z.Prelude.Int.{ℤ, int_eq}
use v2b_z.Prelude.Text.{Text, text_eq}
use v2b_z.Prelude.GoMap.{GoMap, lookup, lookup-insert}
use v2b_z.Panel.{UserInfo}
use v2b_z.Panel.Node.{NodeInfo}
use v2b_z.Core.Types.{Core}
use v2b_z.Limiter.Types.{Limiter, UserLimitInfo}
use v2b_z.Limiter.Rules.{update_rule, Rules}
use v2b_z.Limiter.Registry.{Limiters, modify}
use v2b_z.Node.Controller.{World, Answers, set_alive}
use v2b_z.Node.Controller.Reload.{
  reload_node, refresh_limiter, renew_limiter, remove_node, add_node_again,
}

-- The users that the limiter at a pointer knows.
abbrev pub known_users : ℕ → Limiters → Option (GoMap Text UserLimitInfo)
known_users p g = elim (lookup p g.objects) [ none ↦ none | some l ↦ some l.user_limit_info ]

known_users-modify :
    (p q : ℕ) (f : Limiter → Limiter) (g : Limiters)
    → ((l : Limiter) → lookup q g.objects ≡ some l → (f l).user_limit_info ≡ l.user_limit_info)
    → known_users p (modify q f g) ≡ known_users p g
unfolding modify
known_users-modify p q f g keep = elim (Option-cases (lookup q g.objects)) [
  | inl e ↦ ground arith
  | inr (l, e) ↦ ground (arith, lookup-insert q p (f l) g.objects, keep l e)
]

set_alive-users :
    (alive : Option (GoMap ℤ ℤ)) (l : Limiter)
    → (set_alive alive l).user_limit_info ≡ l.user_limit_info
set_alive-users none l = refl
set_alive-users (some a) l = refl

update_rule-users :
    (compiles : Text → Bool) (r : Rules) (l l' : Limiter)
    → update_rule compiles r l ≡ some l'
    → l'.user_limit_info ≡ l.user_limit_info
unfolding update_rule
update_rule-users compiles r l l' h = ground arith

module _ {S : Type 0} (server : Core S) (compiles : Text → Bool) (trim_space : Text → Text) where
  add_node_again-limiters :
      (node : NodeInfo) (w : World S)
      → (add_node_again server compiles trim_space node w).0.limiters ≡ w.limiters
  unfolding add_node_again
  add_node_again-limiters node w = ground arith

  refresh_limiter-users :
      (p : ℕ) (node : NodeInfo) (a : Answers) (alive : Option (GoMap ℤ ℤ)) (w : World S)
      → known_users p (refresh_limiter server compiles trim_space node a alive w).0.limiters
        ≡ known_users p w.limiters
  unfolding refresh_limiter
  refresh_limiter-users p node a alive w =
      let q = w.controller.limiter in
      let g = modify q (set_alive alive) w.limiters in
      let known =
        known_users-modify p q (set_alive alive) w.limiters (λ l _. set_alive-users alive l) in
      elim (Option-cases (lookup q g.objects)) [
        | inl e ↦ ground arith
        | inr (l, e) ↦ elim (Option-cases (update_rule compiles node.rules l)) [
          | inl d ↦ ground arith
          | inr (l', d) ↦
              let same : (m : Limiter)
                  → lookup q g.objects ≡ some m
                  → l'.user_limit_info ≡ m.user_limit_info =
                λ m h. ground (arith, update_rule-users compiles node.rules l l' d) in
              let w' = record w { limiters = modify q (λ _. l') g } in
              ground
                (arith, known_users-modify p q (λ _. l') g same, add_node_again-limiters node w')
        ]
      ]

  -- A reload of a node that has a name in the configuration leaves every limiter with the users
  -- that it knew before, whatever the panel and the core answer.
  pub reload-known_users :
      (p : ℕ) (node : NodeInfo) (users : Option (List UserInfo)) (alive : Option (GoMap ℤ ℤ))
      (a : Answers) (w : World S)
      → is_empty w.controller.options.name ≡ false
      → known_users p (reload_node server compiles trim_space node users alive a w).0.limiters
        ≡ known_users p w.limiters
  unfolding reload_node remove_node renew_limiter
  reload-known_users p node users alive a w named = ground (
    arith,
    refresh_limiter-users p node a alive (remove_node server compiles trim_space node users w).0,
  )
