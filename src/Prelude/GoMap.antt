-- ===== src/Prelude/GoMap.antt =====
-- A Go map, and a `sync.Map`, as the list of its entries in the order in which `range` visits them.
-- That order is not specified by Go: every theorem holds for each order.
use v2b_z.Prelude.{
  ◌≡◌, refl, Bool, true, false, List, [], ◌∷◌, Option, none, some, arith, Comparable, ◌==◌, ==_refl,
  if◌then◌else◌,
}

abbrev pub GoMap {ℓ} : Type ℓ → Type ℓ → Type ℓ
GoMap K V = List (K × V)

module _ {ℓ} {K V : Type ℓ} ⦃e : Comparable K⦄ where
  -- v, ok := m[k]; m.Load(k)
  unfoldable pub lookup : K → GoMap K V → Option V
  lookup key [] = none
  lookup key ((k, v) ∷ entries) = if k == key then some v else lookup key entries

  -- m[k] = v; m.Store(k, v)
  unfoldable pub insert : K → V → GoMap K V → GoMap K V
  insert key v [] = (key, v) ∷ []
  insert key v ((k, old) ∷ entries) =
      if k == key then (key, v) ∷ entries else (k, old) ∷ insert key v entries

  -- delete(m, k); m.Delete(k)
  unfoldable pub delete : K → GoMap K V → GoMap K V
  delete k [] = []
  delete k ((j, w) ∷ m) = let rest = delete k m in if j == k then rest else (j, w) ∷ rest

  -- _, ok := m[k]
  unfoldable pub has : K → GoMap K V → Bool
  unfolding lookup
  has k m = elim (lookup k m) [ none ↦ false | some v ↦ true ]

  pub lookup-insert :
      (k j : K) (v : V) (m : GoMap K V)
      → lookup j (insert k v m) ≡ (if k == j then some v else lookup j m)
  unfolding lookup insert
  lookup-insert k j v [] = refl
  lookup-insert k j v ((i, old) ∷ entries) =
      ground (arith, lookup-insert k j v entries, e.eqb_iff i j, e.eqb_iff i k, e.eqb_iff k j)

  pub lookup-delete :
      (k j : K) (m : GoMap K V) → lookup j (delete k m) ≡ (if k == j then none else lookup j m)
  unfolding lookup delete
  lookup-delete k j [] = ground arith
  lookup-delete k j ((i, w) ∷ m) =
      ground (arith, lookup-delete k j m, e.eqb_iff i k, e.eqb_iff i j, e.eqb_iff k j)

  pub lookup-insert_self : (k : K) (v : V) (m : GoMap K V) → lookup k (insert k v m) ≡ some v
  lookup-insert_self k v m = rw (lookup-insert k k v m) (rw (==_refl k))

  pub lookup-delete_self : (k : K) (m : GoMap K V) → lookup k (delete k m) ≡ none
  lookup-delete_self k m = rw (lookup-delete k k m) (rw (==_refl k))

-- m[k], which is `d` (the zero value) if `k` is missing.
unfoldable pub get_or {ℓ} : {K V : Type ℓ} ⦃e : Comparable K⦄ → V → K → GoMap K V → V
unfolding lookup
get_or d k m = elim (lookup k m) [ none ↦ d | some v ↦ v ]

pub ruleset map_laws = (lookup-insert, lookup-delete, lookup-insert_self, lookup-delete_self)
