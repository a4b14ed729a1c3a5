-- ===== src/Core/Hy2/Outbound/Resolved.antt =====
-- core/hy2/config.go: the chain that getOutboundConfig builds.
use mathlib.Core.Path.{subst}
use mathlib.Core.Bool.{true≢false}
use v2b_z.Prelude.{
  ◌||◌, ◌==◌, ◌≡◌, ◌∙◌, sym, ap, Option-cases, ◌≢◌, ◌⊎◌, refl, Bool, true, false, List, [], ◌∷◌,
  Option, none, some, Result, ok, err, arith, if◌then◌else◌, is_empty, Result-cases, inl, inr,
}
use v2b_z.Prelude.Int.{ℤ}
use v2b_z.Prelude.Text.{Text, text, text_eq}
use v2b_z.Core.Hy2.Outbound.{
  Library, OutboundEntry, Acl, Resolver, ResolverServer, entries, outbounds, unified, has_acl,
  with_resolver, server_of, get_outbound_config,
}

pick :
    {O : Type 0} {o : O} (C : Type 0) (b : Bool) (x y : Result Text O)
    → (x ≡ ok o → C)
    → (y ≡ ok o → C)
    → (if b then x else y) ≡ ok o
    → C
pick C true x y f g h = f h
pick C false x y f g h = g h

module _ {O Ip : Type 0} (lib : Library O Ip) (to_lower : Text → Text) where
  -- One of the resolvers in front of an outbound.
  pub data IsResolver (o : O) : O → Type 0 where
    system : IsResolver o (lib.system_resolver o)
    tcp : (a : Text) (t : ℤ) → IsResolver o (lib.tcp_resolver a t o)
    udp : (a : Text) (t : ℤ) → IsResolver o (lib.udp_resolver a t o)
    tls : (a : Text) (t : ℤ) (s : Text) (i : Bool) → IsResolver o (lib.tls_resolver a t s i o)
    doh : (a : Text) (t : ℤ) (s : Text) (i : Bool) → IsResolver o (lib.doh_resolver a t s i o)

  server_of-resolves :
      (o o' : O) (s : ResolverServer) (make : ResolverServer → O)
      → IsResolver o (make s)
      → server_of lib to_lower s make ≡ ok o'
      → IsResolver o o'
  unfolding server_of
  server_of-resolves o o' s make is h = subst (IsResolver o) (ground (arith, h)) is

  -- A resolver in front of the outbound, or without an ACL the outbound itself.
  abbrev pub IsFront : Bool → O → O → Type 0
  IsFront acl o o' = IsResolver o o' ⊎ ((acl ≡ false) × (o' ≡ o))

  plain :
      (acl : Bool) (o o' : O)
      → ◌≡◌ {A = Result Text O} (ok (if acl then lib.system_resolver o else o)) (ok o')
      → IsFront acl o o'
  plain true o o' h = inl (subst (IsResolver o) (cc) system)
  plain false o o' h = inr (refl, cc)

  with_resolver-IsFront :
      (r : Resolver) (acl : Bool) (o o' : O)
      → with_resolver lib to_lower r acl o ≡ ok o'
      → IsFront acl o o'
  unfolding with_resolver
  with_resolver-IsFront r acl o o' =
      let C : Type 0 = IsFront acl o o' in
      let t = to_lower r.type in
      pick C (is_empty t || t == text "system") _ _ (plain acl o o') (
        pick C (t == text "tcp") _ _
          (λ h. inl (
            server_of-resolves o o' r.tcp (λ s. lib.tcp_resolver s.addr s.timeout o)
              (tcp r.tcp.addr r.tcp.timeout) h))
          (pick C (t == text "udp") _ _
            (λ h. inl (
              server_of-resolves o o' r.udp (λ s. lib.udp_resolver s.addr s.timeout o)
                (udp r.udp.addr r.udp.timeout) h))
            (pick C (t == text "tls" || t == text "tcp-tls") _ _
              (λ h. inl (
                server_of-resolves o o' r.tls
                  (λ s. lib.tls_resolver s.addr s.timeout s.sni s.insecure o)
                  (tls r.tls.addr r.tls.timeout r.tls.sni r.tls.insecure) h))
              (pick C (t == text "https" || t == text "http") _ _
                (λ h. inl (
                  server_of-resolves o o' r.https
                    (λ s. lib.doh_resolver s.addr s.timeout s.sni s.insecure o)
                    (doh r.https.addr r.https.timeout r.https.sni r.https.insecure) h))
                (λ h. absurd (cc))))))

  -- The chain: the outbounds of the entries, then the engine of the ACL with a resolver in front, or,
  -- without an ACL, the first outbound, with a resolver or without.
  pub data IsChain (es : List OutboundEntry) (a : Acl) : O → Type 0 where
    filtered :
        (obs : List (Text × O)) (engine o : O)
        → outbounds lib to_lower es ≡ ok obs
        → has_acl lib to_lower a ≡ true
        → unified lib to_lower a obs ≡ some (ok engine)
        → IsResolver engine o
        → IsChain es a o
    direct :
        (n : Text) (first o : O) (rest : List (Text × O))
        → outbounds lib to_lower es ≡ ok ((n, first) ∷ rest)
        → has_acl lib to_lower a ≡ false
        → (IsResolver first o) ⊎ (o ≡ first)
        → IsChain es a o

  outbounds-first :
      (es : List OutboundEntry) (obs : List (Text × O))
      → outbounds lib to_lower es ≡ ok obs
      → obs ≢ []
  unfolding outbounds entries
  outbounds-first [] obs h = ground arith
  outbounds-first (e ∷ es) obs h = ground arith

  unified-cases :
      (a : Acl) (n : Text) (first : O) (rest : List (Text × O))
      → ((has_acl lib to_lower a ≡ false)
          × (unified lib to_lower a ((n, first) ∷ rest) ≡ some (ok first)))
        ⊎ ((has_acl lib to_lower a ≡ true) × (unified lib to_lower a ((n, first) ∷ rest) ≢ none))
  unfolding unified has_acl
  unified-cases a n first rest = ground arith

  -- The two ends of getOutboundConfig: an error, or a chain; it does not panic.
  abbrev pub Ends : List OutboundEntry → Acl → Option (Result Text O) → Type 0
  Ends es a res =
      ((e : Text) × (res ≡ some (err e))) ⊎ ((o : O) × (res ≡ some (ok o)) × IsChain es a o)

  get_outbound_config-at :
      (es : List OutboundEntry) (a : Acl) (r : Resolver) (obs : List (Text × O)) (o : O)
      → outbounds lib to_lower es ≡ ok obs
      → unified lib to_lower a obs ≡ some (ok o)
      → get_outbound_config lib to_lower es a r
        ≡ some (with_resolver lib to_lower r (has_acl lib to_lower a) o)
  unfolding get_outbound_config
  get_outbound_config-at es a r obs o e u = ground (arith, e, u)

  get_outbound_config-failed :
      (es : List OutboundEntry) (a : Acl) (r : Resolver) (obs : List (Text × O)) (x : Text)
      → outbounds lib to_lower es ≡ ok obs
      → unified lib to_lower a obs ≡ some (err x)
      → get_outbound_config lib to_lower es a r ≡ some (err x)
  unfolding get_outbound_config
  get_outbound_config-failed es a r obs x e u = ground (arith, e, u)

  refused_entries :
      (es : List OutboundEntry) (a : Acl) (r : Resolver) (x : Text)
      → outbounds lib to_lower es ≡ err x
      → get_outbound_config lib to_lower es a r ≡ some (err x)
  unfolding get_outbound_config
  refused_entries es a r x e = ground (arith, e)

  front_or_same : {acl : Bool} (o o' : O) → IsFront acl o o' → IsResolver o o' ⊎ (o' ≡ o)
  front_or_same o o' (inl is) = inl is
  front_or_same o o' (inr (f, e)) = inr e

  front_only : {acl : Bool} (o o' : O) → acl ≡ true → IsFront acl o o' → IsResolver o o'
  front_only o o' t (inl is) = is
  front_only o o' t (inr (f, e)) = absurd (true≢false (sym t ∙ f))

  -- The end, once the outbound under the resolver is known.
  ends_at :
      (es : List OutboundEntry) (a : Acl) (r : Resolver) (obs : List (Text × O)) (o : O)
      → outbounds lib to_lower es ≡ ok obs
      → unified lib to_lower a obs ≡ some (ok o)
      → ((o' : O) → IsFront (has_acl lib to_lower a) o o' → IsChain es a o')
      → Ends es a (get_outbound_config lib to_lower es a r)
  ends_at es a r obs o e u make =
      let acl = has_acl lib to_lower a in
      let got = get_outbound_config-at es a r obs o e u in
      elim (Result-cases (with_resolver lib to_lower r acl o)) [
        | inl (o', w) ↦ inr (o', got ∙ ap some w, make o' (with_resolver-IsFront r acl o o' w))
        | inr (x, w) ↦ inl (x, got ∙ ap some w)
      ]

  -- getOutboundConfig does not panic: it ends in an error, or in a chain. A chain of a configuration with
  -- an ACL is its engine on the configured outbounds with a resolver in front; without an ACL it is the
  -- first outbound, with a resolver in front or without.
  pub get_outbound_config-Ends :
      (es : List OutboundEntry) (a : Acl) (r : Resolver)
      → Ends es a (get_outbound_config lib to_lower es a r)
  get_outbound_config-Ends es a r = elim (Result-cases (outbounds lib to_lower es)) [
    | inr (x, e) ↦ inl (x, refused_entries es a r x e)
    | inl ([], e) ↦ absurd (outbounds-first es [] e refl)
    | inl ((n, first) ∷ rest, e) ↦
        let obs : List (Text × O) = (n, first) ∷ rest in
        elim (unified-cases a n first rest) [
          | inl (no_acl, u) ↦
              ends_at es a r obs first e u
                (λ o' front. direct n first o' rest e no_acl (front_or_same first o' front))
          | inr (acl, some_engine) ↦ elim (Option-cases (unified lib to_lower a obs)) [
            | inl u ↦ absurd (some_engine u)
            | inr (err x, u) ↦ inl (x, get_outbound_config-failed es a r obs x e u)
            | inr (ok engine, u) ↦
                ends_at es a r obs engine e u
                  (λ o' front. filtered obs engine o' e acl u (front_only engine o' acl front))
          ]
        ]
  ]
