-- ===== src/Limiter/Rules.antt =====
-- limiter/rule.go. Regular expressions are the library's: `compiles` says which texts it accepts,
-- and `matches` whether an expression matches a text.
use v2b_z.Prelude.{
  ◌≡◌, refl, ◌↔◌, ◌⊎◌, inr, Bool, true, false, List, [], ◌∷◌, Option, none, some, arith, ◌==◌,
  if◌then◌else◌,
}
use v2b_z.Prelude.Text.{Text, text_eq, text_beq_iff}
use v2b_z.Limiter.Types.{Limiter}

pub record Rules : Type 0 where
  pub regexp : List Text
  pub protocol : List Text

unfoldable pub check_protocol_rules : List Text → Text → Bool
check_protocol_rules [] protocol = false
check_protocol_rules (r ∷ rs) protocol =
    let rest = check_protocol_rules rs protocol in if r == protocol then true else rest

unfoldable pub check_protocol_rule : Limiter → Text → Bool
unfolding check_protocol_rules
check_protocol_rule l protocol = check_protocol_rules l.protocol_rules protocol

abbrev pub Named : List Text → Text → Type 0
Named [] p = ⊥
Named (r ∷ rs) p = (r ≡ p) ⊎ Named rs p

check_protocol_rules_iff :
    (rs : List Text) (p : Text) → (check_protocol_rules rs p ≡ true) ↔ Named rs p
unfolding check_protocol_rules
check_protocol_rules_iff [] p = ground arith
check_protocol_rules_iff (r ∷ rs) p =
    ground (arith, text_beq_iff r p, check_protocol_rules_iff rs p)

module _ (matches : Text → Text → Bool) where
  unfoldable pub check_domain_rules : List Text → Text → Bool
  check_domain_rules [] destination = false
  check_domain_rules (r ∷ rs) destination =
      let rest = check_domain_rules rs destination in if matches r destination then true else rest

  unfoldable pub check_domain_rule : Limiter → Text → Bool
  unfolding check_domain_rules
  check_domain_rule l destination = check_domain_rules l.domain_rules destination

  abbrev pub Matching : List Text → Text → Type 0
  Matching [] d = ⊥
  Matching (r ∷ rs) d = (matches r d ≡ true) ⊎ Matching rs d

  check_domain_rules_iff :
      (rs : List Text) (d : Text) → (check_domain_rules rs d ≡ true) ↔ Matching rs d
  unfolding check_domain_rules
  check_domain_rules_iff [] d = ground arith
  check_domain_rules_iff (r ∷ rs) d = ground (arith, check_domain_rules_iff rs d)

module _ (compiles : Text → Bool) where
  unfoldable pub compile_all : List Text → Option (List Text)
  compile_all [] = some []
  compile_all (r ∷ rs) =
      let rest = compile_all rs in
      if compiles r then elim rest [ none ↦ none | some es ↦ some (r ∷ es) ] else none

  -- `none` is the panic of regexp.MustCompile.
  unfoldable pub update_rule : Rules → Limiter → Option Limiter
  unfolding compile_all
  update_rule rule l = elim (compile_all rule.regexp) [
    | none ↦ none
    | some es ↦ some (record l { domain_rules = es; protocol_rules = rule.protocol })
  ]

  compile_all_lem : (rs : List Text) → (compile_all rs ≡ none) ⊎ (compile_all rs ≡ some rs)
  unfolding compile_all
  compile_all_lem [] = inr refl
  compile_all_lem (r ∷ rs) = ground (arith, compile_all_lem rs)

module _ (compiles : Text → Bool) (matches : Text → Text → Bool) where
  -- After an update_rule that succeeds, a destination is rejected exactly when one of the new
  -- expressions matches it, and a protocol exactly when it is one of the new names.
  pub check-update_rule :
      (rule : Rules) (l l' : Limiter) (d : Text)
      → update_rule compiles rule l ≡ some l'
      → ((check_domain_rule matches l' d ≡ true) ↔ Matching matches rule.regexp d)
        × ((check_protocol_rule l' d ≡ true) ↔ Named rule.protocol d)
  unfolding check_domain_rule check_protocol_rule update_rule
  check-update_rule rule l l' d h = (
    ground
        (arith, compile_all_lem compiles rule.regexp, check_domain_rules_iff matches rule.regexp d),
    ground (arith, compile_all_lem compiles rule.regexp, check_protocol_rules_iff rule.protocol d),
  )
