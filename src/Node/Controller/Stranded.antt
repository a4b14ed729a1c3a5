-- ===== src/Node/Controller/Stranded.antt =====
-- node/task.go: what a reload of nodeInfoMonitor leaves when the certificate request fails.
use v2b_z.Prelude.{
  ◌≡◌, refl, Bool, true, List, Option, some, arith, if◌then◌else◌, is_empty, ok, err, Bool-cases,
  inl, inr, ◌==◌, nat_eq,
}
use v2b_z.Prelude.Int.{ℤ, int_eq}
use v2b_z.Prelude.Text.{Text, text_eq}
use v2b_z.Prelude.GoMap.{GoMap}
use v2b_z.Panel.{UserInfo}
use v2b_z.Panel.Node.{NodeInfo, tls_security}
use v2b_z.Core.Types.{Core, Failure}
use v2b_z.Node.Controller.{World, Outcome, crashed, Answers, build_node_tag}
use v2b_z.Node.Controller.Reload.{reload_node, refresh_limiter, renew_limiter, remove_node}

module _ {S : Type 0} (server : Core S) (compiles : Text → Bool) (trim_space : Text → Text) where
  abbrev reload :
      NodeInfo → Option (List UserInfo) → Option (GoMap ℤ ℤ) → Answers → World S → World S × Outcome
  reload = reload_node server compiles trim_space

  renew_limiter-tag :
      (node : NodeInfo) (alive : Option (GoMap ℤ ℤ)) (w : World S)
      → (if is_empty w.controller.options.name
          then build_node_tag w.controller.api_host node
          else w.controller.tag)
        ≡ w.controller.tag
      → ((renew_limiter server compiles trim_space node alive w).controller.tag ≡ w.controller.tag)
        × ((renew_limiter server compiles trim_space node alive w).server ≡ w.server)
  unfolding renew_limiter
  renew_limiter-tag node alive w h = elim (Bool-cases (is_empty w.controller.options.name)) [
    | inl e ↦ let t = subst_if h e in rw e (t, refl)
    | inr e ↦ rw e (refl, refl)
  ]
    where
      subst_if : {A : Type 0} {b : Bool} {x y : A} → (if b then x else y) ≡ y → b ≡ true → x ≡ y
      subst_if h e = ground arith

  refresh_stops :
      (node : NodeInfo) (a : Answers) (alive : Option (GoMap ℤ ℤ)) (e : Failure) (w : World S)
      → (node.security == tls_security) ≡ true
      → a.cert ≡ some e
      → let w' = (refresh_limiter server compiles trim_space node a alive w).0 in
        (w'.controller.tag ≡ w.controller.tag) × (w'.server ≡ w.server)
  unfolding refresh_limiter
  refresh_stops node a alive e w tls failed = ground arith

  stopped :
      (node : NodeInfo) (users : Option (List UserInfo)) (alive : Option (GoMap ℤ ℤ)) (a : Answers)
      (e : Failure) (w : World S)
      → (server.del_node w.controller.tag w.server).1 ≡ ok tt
      → (node.security == tls_security) ≡ true
      → a.cert ≡ some e
      → (if is_empty w.controller.options.name
          then build_node_tag w.controller.api_host node
          else w.controller.tag)
        ≡ w.controller.tag
      → let w' = (reload node users alive a w).0 in
        (w'.controller.tag ≡ w.controller.tag)
        × (w'.server ≡ (server.del_node w.controller.tag w.server).0)
  unfolding reload_node remove_node
  stopped node users alive a e w deleted tls failed same =
      let w1 = (remove_node server compiles trim_space node users w).0 in
      let w2 = renew_limiter server compiles trim_space node alive w1 in
      ground
        (arith, renew_limiter-tag node alive w1 same, refresh_stops node a alive e w2 tls failed)

  crashes :
      (node : NodeInfo) (users : Option (List UserInfo)) (alive : Option (GoMap ℤ ℤ)) (a : Answers)
      (e : Failure) (w : World S)
      → (server.del_node w.controller.tag w.server).1 ≡ err e
      → (reload node users alive a w).1 ≡ crashed
  unfolding reload_node remove_node
  crashes node users alive a e w h = ground arith

  -- If the certificate request fails while a TLS node whose tag stays is reloaded, after the core
  -- has deleted it, and the core refuses to delete a node that it has just deleted, then the next
  -- reload panics.
  pub reload-stranded :
      (node next : NodeInfo) (users users' : Option (List UserInfo))
      (alive alive' : Option (GoMap ℤ ℤ)) (a a' : Answers) (e : Failure) (w : World S)
      → ((t : Text) (s : S)
          → (server.del_node t s).1 ≡ ok tt
          → (f : Failure) × ((server.del_node t (server.del_node t s).0).1 ≡ err f))
      → (server.del_node w.controller.tag w.server).1 ≡ ok tt
      → (node.security == tls_security) ≡ true
      → a.cert ≡ some e
      → (if is_empty w.controller.options.name
          then build_node_tag w.controller.api_host node
          else w.controller.tag)
        ≡ w.controller.tag
      → (reload next users' alive' a' (reload node users alive a w).0).1 ≡ crashed
  reload-stranded node next users users' alive alive' a a' e w twice deleted tls failed same =
      let p = stopped node users alive a e w deleted tls failed same in
      let (f, again) = twice w.controller.tag w.server deleted in
      crashes next users' alive' a' f (reload node users alive a w).0 (rw (p.0, p.1) again)
