-- ===== src/Core/Xray/Sniffer/Ends.antt =====
-- core/xray/app/dispatcher/default.go: sniffer ends.
use mathlib.Core.Path.{subst}
use v2b_z.Prelude.{
  ℕ, zero, suc, ◌+◌, ◌≤◌, ◌<◌, ◌≡◌, refl, arith, Bool, true, false, List, [], ◌∷◌, Option, none,
  some, ◌⊎◌, inl, inr, is_empty, Result, ok, err, by_if, by_option, by_result, sym, Sum-cases,
}
use v2b_z.Prelude.Int.{sub64}
use v2b_z.Prelude.Text.{Text}
use v2b_z.Core.Xray.Dispatch.{SniffResult}
use v2b_z.Core.Xray.Sniffer.{
  ProtocolSniffer, SniffError, no_clue, unknown_content, of_context, of_reader, start, combine,
  sniff_metadata, scan, settle, sniff, Source, CachedReader, cache_payload, Attempt, Outcome, again,
  switch_error, look, round, content_loop, sniffer,
}

-- Sniff has no other errors than these two: it never asks for more data.
IsAnswer : Result SniffError SniffResult → Type 0
IsAnswer x = ((r : SniffResult) × (x ≡ ok r)) ⊎ (x ≡ err no_clue) ⊎ (x ≡ err unknown_content)

settle-IsAnswer :
    (ss : List ProtocolSniffer) (s : List ProtocolSniffer × Option SniffResult)
    → IsAnswer (settle ss s).1
unfolding IsAnswer settle
settle-IsAnswer ss (pending, some r) = inl (r, refl)
settle-IsAnswer ss ([], none) = inr (inr refl)
settle-IsAnswer ss (p ∷ pending, none) = inr (inl refl)

sniff-IsAnswer :
    (payload : Text) (network : ℕ) (ss : List ProtocolSniffer)
    → IsAnswer (sniff payload network ss).1
unfolding sniff
sniff-IsAnswer payload network ss = settle-IsAnswer ss (scan _ false payload ss)

module _ {H : Type 0} (source : Source H) where
  -- A round that does not end the loop has counted an attempt, which was not the second.
  Advances : Attempt H → Outcome H ⊎ Attempt H → Type 0
  Advances a o =
      (a' : Attempt H)
      → o ≡ inr a'
      → (a'.total_attempt ≡ suc a.total_attempt) × (a'.total_attempt < 2)

  again-Advances :
      (a b : Attempt H) → b.total_attempt ≡ suc a.total_attempt → Advances a (again source b)
  unfolding Advances again
  again-Advances a b h a' e = ground (arith, h, e)

  ended-Advances : (a : Attempt H) (o : Outcome H) → Advances a (inl o)
  unfolding Advances
  ended-Advances a o a' e = absurd (cc)

  switch_error-Advances :
      (a b : Attempt H) (ss : List ProtocolSniffer) (x : Result SniffError SniffResult)
      → b.total_attempt ≡ a.total_attempt
      → IsAnswer x
      → Advances a (switch_error source b (ss, x))
  unfolding switch_error IsAnswer
  switch_error-Advances a b ss x h (inl (r, p)) =
      subst (λ y. Advances a (switch_error source b (ss, y))) (sym p) (ended-Advances a _)
  switch_error-Advances a b ss x h (inr (inl p)) =
      subst (λ y. Advances a (switch_error source b (ss, y))) (sym p)
        (again-Advances a (record b { sniffers = ss; total_attempt = b.total_attempt + 1 })
          (ground (arith, h)))
  switch_error-Advances a b ss x h (inr (inr p)) =
      subst (λ y. Advances a (switch_error source b (ss, y))) (sym p) (ended-Advances a _)

  look-Advances :
      (network : ℕ) (payload : Text) (a b : Attempt H)
      → b.total_attempt ≡ a.total_attempt
      → Advances a (look source network payload b)
  unfolding look
  look-Advances network payload a b h =
      by_if (Advances a)
        (again-Advances a (record b { total_attempt = b.total_attempt + 1 }) (ground (arith, h)))
        (switch_error-Advances a b (sniff payload network b.sniffers).0 _ h
          (sniff-IsAnswer payload network b.sniffers))
        (is_empty payload)

  round-Advances : (network : ℕ) (a : Attempt H) → Advances a (round source network a)
  unfolding round
  round-Advances network a =
      let (r, read) = cache_payload source a.cache_deadline a.c_reader in
      by_option (Advances a) (λ e. ended-Advances a (a.c_reader, err (of_context e)))
        (by_result (Advances a) (λ e. ended-Advances a (r, err (of_reader e)))
          (λ payload.
            look-Advances network payload a
              (record a {
                c_reader = r;
                cache_deadline = sub64 a.cache_deadline (source.elapsed a.c_reader.reader r.reader);
              })
              refl)
          read)
        (source.done a.c_reader.reader)

  by_fuel : (P : ℕ → Type 0) → ((n : ℕ) → P (suc (suc n))) → (n : ℕ) → 2 ≤ n → P n
  by_fuel P all zero h = absurd (omega (arith, h))
  by_fuel P all (suc zero) h = absurd (omega (arith, h))
  by_fuel P all (suc (suc n)) h = all n

  -- After an attempt, the next round is the last.
  last_round :
      (network : ℕ) (a : Attempt H)
      → 1 ≤ a.total_attempt
      → (o : Outcome H) × (round source network a ≡ inl o)
  unfolding Advances
  last_round network a h = elim (Sum-cases (round source network a)) [
    | inl p ↦ p
    | inr (a', e) ↦
        let advances = round-Advances network a a' e in
        absurd (omega (arith, h, advances.0, advances.1))
  ]

  content_loop-Ends :
      (network : ℕ) (a : Attempt H)
      → (o : Outcome H) × ((fuel : ℕ) → content_loop source network (suc (suc fuel)) a ≡ some o)
  unfolding content_loop Advances
  content_loop-Ends network a = elim (Sum-cases (round source network a)) [
    | inl (o, e) ↦ (o, λ fuel. ground (arith, e))
    | inr (a', e) ↦
        let advances = round-Advances network a a' e in
        let (o, e') = last_round network a' (ground (arith, advances.0)) in
        (o, λ fuel. ground (arith, e, e'))
  ]

  -- sniffer ends after at most two rounds of its loop, whatever is read, however long each read takes
  -- and whatever the sniffers answer: all runs with fuel for two rounds end, and in the same way.
  pub sniffer-Ends :
      (metadata_only : Bool) (network : ℕ) (ss : List ProtocolSniffer) (r : CachedReader H)
      → (o : Outcome H) × ((fuel : ℕ)
          → 2 ≤ fuel
          → sniffer source fuel metadata_only network ss r ≡ some o)
  unfolding sniffer
  sniffer-Ends false network ss r =
      let (o, e) = content_loop-Ends network (start r (sniff_metadata ss).0) in
      (
        (o.0, combine (sniff_metadata ss).1 o.1),
        by_fuel (λ n. sniffer source n false network ss r ≡ _) (λ n. ground (arith, e n)),
      )
  sniffer-Ends true network ss r = ((r, (sniff_metadata ss).1), λ fuel h. refl)
