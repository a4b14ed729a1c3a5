-- ===== src/Core/Xray/Sniffer/Stream.antt =====
-- core/xray/app/dispatcher/default.go: sniffing takes nothing from the stream.
use mathlib.Core.List.{append_assoc}
use v2b_z.Prelude.{
  ℕ, zero, suc, ◌≡◌, ◌∙◌, arith, Bool, true, false, List, [], ◌++◌, some, ◌⊎◌, inl, inr, is_empty,
  Result, Sum-cases, Bool-cases, Option-cases, Result-cases, ok, err,
}
use v2b_z.Prelude.Int.{ℤ}
use v2b_z.Prelude.Text.{Text}
use v2b_z.Core.Xray.Dispatch.{SniffResult}
use v2b_z.Core.Xray.Sniffer.{
  ProtocolSniffer, SniffError, Source, CachedReader, Attempt, Outcome, cache_payload, read_cached,
  again, switch_error, look, round, content_loop, sniffer, start, sniff_metadata,
}

-- What a read gives to its caller.
abbrev pub bytes_of : Result Text Text → Text
bytes_of (ok mb) = mb
bytes_of (err e) = []

abbrev reader_of : {H : Type 0} → Outcome H ⊎ Attempt H → CachedReader H
reader_of (inl (r, x)) = r
reader_of (inr a) = a.c_reader

-- `rest` is what is still to come from the reader below.
abbrev pub unread : {H : Type 0} → (H → Text) → CachedReader H → Text
unread rest r = r.cache ++ rest r.reader

module _ {H : Type 0} (source : Source H) where
  switch_error-reader :
      (a : Attempt H) (ss : List ProtocolSniffer) (x : Result SniffError SniffResult)
      → reader_of (switch_error source a (ss, x)) ≡ a.c_reader
  unfolding switch_error again
  switch_error-reader a ss x = ground arith

  look-reader :
      (network : ℕ) (payload : Text) (a : Attempt H)
      → reader_of (look source network payload a) ≡ a.c_reader
  unfolding look again
  look-reader network payload a = ground (arith, switch_error-reader a)

module _ {H : Type 0} (source : Source H) (rest : H → Text)
    (reads : (deadline : ℤ) (h : H)
      → rest h
        ≡ bytes_of (source.read_multi_buffer_timeout deadline h).1
          ++ rest (source.read_multi_buffer_timeout deadline h).0) where
  cache_payload-unread :
      (deadline : ℤ) (r : CachedReader H)
      → unread rest (cache_payload source deadline r).0 ≡ unread rest r
  unfolding cache_payload
  cache_payload-unread deadline r =
      let (h, read) = source.read_multi_buffer_timeout deadline r.reader in
      elim (Result-cases read) [
        | inl (mb, e) ↦
            let came : rest r.reader ≡ mb ++ rest h = ground (arith, e, reads deadline r.reader) in
            ground (arith, e, came, append_assoc r.cache mb (rest h))
        | inr (x, e) ↦ ground (arith, e, reads deadline r.reader)
      ]

  round-unread :
      (network : ℕ) (a : Attempt H)
      → unread rest (reader_of (round source network a)) ≡ unread rest a.c_reader
  unfolding round
  round-unread network a =
      ground (arith, look-reader source, cache_payload-unread a.cache_deadline a.c_reader)

  loop-unread :
      (network fuel : ℕ) (a : Attempt H) (o : Outcome H)
      → content_loop source network fuel a ≡ some o
      → unread rest o.0 ≡ unread rest a.c_reader
  unfolding content_loop
  loop-unread network zero a o h = absurd (cc)
  loop-unread network (suc fuel) a o h =
      let step = round-unread network a in
      elim (Sum-cases (round source network a)) [
        | inl (o', e) ↦ ground (arith, h, e, step)
        | inr (a', e) ↦ ground (arith, h, e, step, loop-unread network fuel a' o)
      ]

  read-unread :
      (deadline : ℤ) (r : CachedReader H)
      → bytes_of (read_cached source deadline r).1 ++ unread rest (read_cached source deadline r).0
        ≡ unread rest r
  unfolding read_cached
  read-unread deadline r = elim (Bool-cases (is_empty r.cache)) [
    | inl e ↦
        let none_cached : r.cache ≡ [] = ground (arith, e) in
        ground (arith, e, none_cached, reads deadline r.reader)
    | inr e ↦ ground (arith, e)
  ]

  -- Sniffing takes nothing from the stream: what a first read of the link after sniffer gives, and
  -- what is then still unread, is what was unread before it. The condition is that a read of the reader
  -- below takes from its stream what it gives, and nothing if it fails.
  pub read-sniffer :
      (fuel : ℕ) (metadata_only : Bool) (network : ℕ) (ss : List ProtocolSniffer)
      (r : CachedReader H) (o : Outcome H) (deadline : ℤ)
      → sniffer source fuel metadata_only network ss r ≡ some o
      → bytes_of (read_cached source deadline o.0).1
          ++ unread rest (read_cached source deadline o.0).0
        ≡ unread rest r
  unfolding sniffer
  read-sniffer fuel true network ss r o deadline h = read-unread deadline o.0 ∙ ground (arith, h)
  read-sniffer fuel false network ss r o deadline h =
      read-unread deadline o.0
      ∙ elim (Option-cases (content_loop source network fuel (start r (sniff_metadata ss).0))) [
        | inl e ↦ ground (arith, h, e)
        | inr (o', e) ↦
            ground (arith, h, e, loop-unread network fuel (start r (sniff_metadata ss).0) o')
      ]
