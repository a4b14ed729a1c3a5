-- ===== src/Core/Selector/Choice.antt =====
-- core/selector.go: which core AddNode takes.
use v2b_z.Prelude.{
  ◌≡◌, ◌≢◌, ◌↔◌, refl, true, false, List, [], ◌∷◌, Option, none, some, arith, ◌==◌, ==_iff,
  is_empty, if◌then◌else◌, Bool-cases, inl, inr, ◌⊎◌,
}
use v2b_z.Prelude.Text.{Text, text_eq}
use v2b_z.Prelude.GoMap.{GoMap, lookup}
use v2b_z.Panel.Node.{NodeInfo}
use v2b_z.Conf.Options.{Options}
use v2b_z.Core.Types.{Core}
use v2b_z.Core.Selector.{is_supported, fits, last_fit, select_core}

is_empty-nil : (t : Text) → is_empty t ≡ true → t ≡ []
is_empty-nil [] h = refl
is_empty-nil (c ∷ t) h = absurd (cc)

is_empty-cons : (t : Text) → is_empty t ≡ false → t ≢ []
is_empty-cons [] h e = absurd (cc)
is_empty-cons (c ∷ t) h e = absurd (cc)

abbrev pub IsAmong : Text → List Text → Type 0
IsAmong p [] = ⊥
IsAmong p (q ∷ qs) = (p ≡ q) ⊎ IsAmong p qs

is_supported-IsAmong : (p : Text) (qs : List Text) → (is_supported p qs ≡ true) ↔ IsAmong p qs
unfolding is_supported
is_supported-IsAmong p [] = (λ h. absurd (cc), λ h. absurd h)
is_supported-IsAmong p (q ∷ qs) = (
  λ h. elim (Bool-cases (p == q)) [
    | inl e ↦ inl ((==_iff p q).0 e)
    | inr e ↦ inr ((is_supported-IsAmong p qs).0 (ground (arith, h, e)))
  ],
  λ h. elim h [
    | inl e ↦ ground (arith, (==_iff p q).1 e)
    | inr r ↦ ground (arith, (is_supported-IsAmong p qs).1 r)
  ],
)

-- The core of a name, if there is one.
abbrev pub named_core : {S : Type 0} → Text → GoMap Text S → Option Text
named_core name cs = elim (lookup name cs) [ none ↦ none | some _ ↦ some name ]

module _ {S : Type 0} (ops : Core S) where
  -- A core that the loop may take: of the type in the options, or, without one, a core that has the
  -- protocol of the node among its protocols.
  abbrev pub IsFit : NodeInfo → Options → S → Type 0
  IsFit info option c =
      ((option.core ≢ []) × (option.core ≡ ops.type c))
      ⊎ ((option.core ≡ []) × IsAmong info.type (ops.protocols c))

  -- Some core of that name is such a core; no core is one.
  abbrev pub IsFitOf : NodeInfo → Options → GoMap Text S → Text → Type 0
  IsFitOf info option [] n = ⊥
  IsFitOf info option ((m, c) ∷ cs) n = ((m ≡ n) × IsFit info option c) ⊎ IsFitOf info option cs n

  abbrev pub NoFit : NodeInfo → Options → GoMap Text S → Type 0
  NoFit info option [] = Unit
  NoFit info option ((m, c) ∷ cs) = ¬ (IsFit info option c) × NoFit info option cs

  fits-IsFit :
      (info : NodeInfo) (option : Options) (c : S)
      → (fits ops info option c ≡ true) ↔ IsFit info option c
  unfolding fits
  fits-IsFit info option c = elim (Bool-cases (is_empty option.core)) [
    | inl e ↦ (
      λ h. inr (
        is_empty-nil option.core e,
        (is_supported-IsAmong info.type (ops.protocols c)).0 (ground (arith, h, e)),
      ),
      λ h. elim h [
        | inl typed ↦ absurd (typed.0 (is_empty-nil option.core e))
        | inr untyped ↦
            ground (arith, e, (is_supported-IsAmong info.type (ops.protocols c)).1 untyped.1)
      ],
    )
    | inr e ↦ (
      λ h.
          inl (
            is_empty-cons option.core e,
            (==_iff option.core (ops.type c)).0 (ground (arith, h, e)),
          ),
      λ h. elim h [
        | inl typed ↦ ground (arith, e, (==_iff option.core (ops.type c)).1 typed.1)
        | inr untyped ↦ absurd (is_empty-cons option.core e untyped.0)
      ],
    )
  ]

  last_fit-some :
      (info : NodeInfo) (option : Options) (cs : GoMap Text S) (found : Option Text) (n : Text)
      → last_fit ops info option cs found ≡ some n
      → IsFitOf info option cs n ⊎ (found ≡ some n)
  unfolding last_fit
  last_fit-some info option [] found n h = inr h
  last_fit-some info option ((m, c) ∷ cs) found n h =
      let rest =
        last_fit-some info option cs (if fits ops info option c then some m else found) n h in
      elim (Bool-cases (fits ops info option c)) [
        | inl e ↦ elim rest [
          | inl r ↦ inl (inr r)
          | inr r ↦ inl (inl (ground (arith, r, e), (fits-IsFit info option c).0 e))
        ]
        | inr e ↦ elim rest [ inl r ↦ inl (inr r) | inr r ↦ inr (ground (arith, r, e)) ]
      ]

  last_fit-none :
      (info : NodeInfo) (option : Options) (cs : GoMap Text S) (found : Option Text)
      → last_fit ops info option cs found ≡ none
      → NoFit info option cs × (found ≡ none)
  unfolding last_fit
  last_fit-none info option [] found h = (tt, h)
  last_fit-none info option ((m, c) ∷ cs) found h =
      let rest =
        last_fit-none info option cs (if fits ops info option c then some m else found) h in
      elim (Bool-cases (fits ops info option c)) [
        | inl e ↦ absurd (ground (arith, e, rest.1))
        | inr e ↦ (
          (λ f. absurd (ground (arith, e, (fits-IsFit info option c).1 f)), rest.0),
          ground (arith, e, rest.1),
        )
      ]

  -- What is chosen without a name, and with one.
  abbrev pub IsChoice : NodeInfo → Options → GoMap Text S → Option Text → Type 0
  IsChoice info option cs none = NoFit info option cs
  IsChoice info option cs (some n) = IsFitOf info option cs n

  last_fit-IsChoice :
      (info : NodeInfo) (option : Options) (cs : GoMap Text S) (o : Option Text)
      → last_fit ops info option cs none ≡ o
      → IsChoice info option cs o
  last_fit-IsChoice info option cs none h = (last_fit-none info option cs none h).0
  last_fit-IsChoice info option cs (some n) h = elim (last_fit-some info option cs none n h) [
    | inl f ↦ f
    | inr e ↦ absurd (cc)
  ]

  -- If the options name a core, select_core finds exactly this one, if there is one of the name. If
  -- they do not, it finds one that fits the node: of the type in the options, or, without a type, one
  -- that supports the protocol; and it finds none only if no core fits.
  pub select_core-IsChoice :
      (info : NodeInfo) (option : Options) (cs : GoMap Text S)
      → ((option.core_name ≢ [])
          × (select_core ops info option cs ≡ named_core option.core_name cs))
        ⊎ ((option.core_name ≡ []) × IsChoice info option cs (select_core ops info option cs))
  unfolding select_core
  select_core-IsChoice info option cs = elim (Bool-cases (is_empty option.core_name)) [
    | inr e ↦ inl (is_empty-cons option.core_name e, ground (arith, e))
    | inl e ↦ inr (
      is_empty-nil option.core_name e,
      last_fit-IsChoice info option cs (select_core ops info option cs) (ground (arith, e)),
    )
  ]
