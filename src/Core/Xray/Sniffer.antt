-- ===== src/Core/Xray/Sniffer.antt =====
-- core/xray/app/dispatcher: sniffer.go, and cachedReader and sniffer of default.go. The protocol
-- sniffers, the reader below and the clock are the library's; a buffer is the text of its bytes.
pub mod Ends
pub mod Stream
pub mod More
use v2b_z.Prelude.{
  ℕ, zero, suc, ◌+◌, Bool, true, false, not, ◌||◌, List, [], ◌∷◌, ◌++◌, Option, none, some, ◌==◌,
  nat_eq, leb, ◌⊎◌, inl, inr, is_empty, if◌then◌else◌, Result, ok, err,
}
use v2b_z.Prelude.Int.{ℤ, pos, sub64, leb_ℤ}
use v2b_z.Prelude.Text.{Text, take}
use v2b_z.Core.Xray.Dispatch.{SniffResult}

-- What a protocol sniffer answers; `nothing` is no result without an error.
pub data Answer : Type 0 where
  found : SniffResult → Answer
  nothing clueless needs_more : Answer
  failed : Text → Answer

-- protocolSnifferWithMetadata; a network is its number.
pub record ProtocolSniffer : Type 0 where
  pub protocol_sniffer : Text → Answer
  pub metadata_sniffer : Bool
  pub network : ℕ

pub data SniffError : Type 0 where
  no_clue need_more_data unknown_content sniffing_timeout : SniffError
  of_reader of_context : Text → SniffError

-- The loop of Sniff and of SniffMetadata: the sniffers that have no clue, up to a first result.
unfoldable pub scan :
    (ProtocolSniffer → Bool)
    → Bool
    → Text
    → List ProtocolSniffer
    → List ProtocolSniffer × Option SniffResult
scan skips keeps payload [] = ([], none)
scan skips keeps payload (s ∷ ss) =
    let (pending, result) = scan skips keeps payload ss in
    if skips s
    then (if keeps then s ∷ pending else pending, result)
    else elim (s.protocol_sniffer payload) [
      | found r ↦ ([], some r)
      | nothing ↦ (pending, result)
      | clueless ↦ (s ∷ pending, result)
      | needs_more ↦ (pending, result)
      | failed _ ↦ (pending, result)
    ]

-- What follows the loop.
unfoldable pub settle :
    List ProtocolSniffer
    → List ProtocolSniffer × Option SniffResult
    → List ProtocolSniffer × Result SniffError SniffResult
settle ss (pending, some r) = (ss, ok r)
settle ss (pending, none) =
    if is_empty pending then (ss, err unknown_content) else (pending, err no_clue)

unfoldable pub is_skipped : ℕ → ProtocolSniffer → Bool
is_skipped network s = s.metadata_sniffer || not (s.network == network)

unfoldable pub sniff :
    Text → ℕ → List ProtocolSniffer → List ProtocolSniffer × Result SniffError SniffResult
unfolding scan settle is_skipped
sniff payload network ss = settle ss (scan (is_skipped network) false payload ss)

unfoldable pub sniff_metadata :
    List ProtocolSniffer → List ProtocolSniffer × Result SniffError SniffResult
unfolding scan settle
sniff_metadata ss = settle ss (scan (λ s. not s.metadata_sniffer) true [] ss)

-- The composite of a result for the domain and one for the protocol.
unfoldable pub composite_result : SniffResult → SniffResult → SniffResult
composite_result domain_result protocol_result = record {
  protocol = protocol_result.protocol;
  domain_name = domain_result.domain_name;
  protocol_for_domain = some domain_result.protocol;
  subset_of = λ _. false;
}

-- The reader below a cachedReader, and what else the loop asks of the system: whether the context is
-- done, and the time that a read took, from the states before and after it.
pub record Source (H : Type 0) : Type 0 where
  pub read_multi_buffer_timeout : ℤ → H → H × Result Text Text
  pub done : H → Option Text
  pub elapsed : H → H → ℤ
  pub payload_cap : ℕ

pub record CachedReader (H : Type 0) : Type 0 where
  pub reader : H
  pub cache : Text

-- The variables of the loop of sniffer.
pub record Attempt (H : Type 0) : Type 0 where
  pub c_reader : CachedReader H
  pub sniffers : List ProtocolSniffer
  pub cache_deadline : ℤ
  pub total_attempt : ℕ

-- A run that ended, and with what.
abbrev pub Outcome : Type 0 → Type 0
Outcome H = CachedReader H × Result SniffError SniffResult

-- The variables before the loop: the deadline is 200 milliseconds.
abbrev pub start : {H : Type 0} → CachedReader H → List ProtocolSniffer → Attempt H
start r ss = record {
  c_reader = r;
  sniffers = ss;
  cache_deadline = pos 200000000;
  total_attempt = 0;
}

-- What sniffer makes of the two results.
unfoldable pub combine :
    Result SniffError SniffResult → Result SniffError SniffResult → Result SniffError SniffResult
unfolding composite_result
combine (ok m) (err e) = ok m
combine (ok m) (ok c) = ok (composite_result m c)
combine (err e) content = content

module _ {H : Type 0} (source : Source H) where
  -- CachedReader.Cache, with what it leaves in the payload.
  unfoldable pub cache_payload : ℤ → CachedReader H → CachedReader H × Result Text Text
  cache_payload deadline r =
      let (h, read) = source.read_multi_buffer_timeout deadline r.reader in
      elim read [
        | err e ↦ (record r { reader = h }, err e)
        | ok mb ↦ (
          record { reader = h; cache = r.cache ++ mb },
          ok (take source.payload_cap (r.cache ++ mb)),
        )
      ]

  -- CachedReader.ReadMultiBufferTimeout: the cache first, then the reader below.
  unfoldable pub read_cached : ℤ → CachedReader H → CachedReader H × Result Text Text
  read_cached deadline r =
      let (h, read) = source.read_multi_buffer_timeout deadline r.reader in
      if is_empty r.cache
      then (record r { reader = h }, read)
      else (record r { cache = [] }, ok r.cache)

  -- The test at the end of a round.
  unfoldable pub again : Attempt H → Outcome H ⊎ Attempt H
  again a =
      if leb 2 a.total_attempt || leb_ℤ a.cache_deadline (pos 0)
      then inl (a.c_reader, err sniffing_timeout)
      else inr a

  -- The switch on the error of Sniff.
  unfoldable pub switch_error :
      Attempt H → List ProtocolSniffer × Result SniffError SniffResult → Outcome H ⊎ Attempt H
  unfolding again
  switch_error a (ss, ok r) = inl (a.c_reader, ok r)
  switch_error a (ss, err no_clue) =
      again (record a { sniffers = ss; total_attempt = a.total_attempt + 1 })
  switch_error a (ss, err need_more_data) = again (record a { sniffers = ss })
  switch_error a (ss, err unknown_content) = inl (a.c_reader, err unknown_content)
  switch_error a (ss, err sniffing_timeout) = inl (a.c_reader, err sniffing_timeout)
  switch_error a (ss, err (of_reader e)) = inl (a.c_reader, err (of_reader e))
  switch_error a (ss, err (of_context e)) = inl (a.c_reader, err (of_context e))

  -- What a round does with the payload.
  unfoldable pub look : ℕ → Text → Attempt H → Outcome H ⊎ Attempt H
  unfolding again switch_error sniff
  look network payload a =
      if is_empty payload
      then again (record a { total_attempt = a.total_attempt + 1 })
      else switch_error a (sniff payload network a.sniffers)

  -- A round of the loop.
  unfoldable pub round : ℕ → Attempt H → Outcome H ⊎ Attempt H
  unfolding look cache_payload
  round network a = elim (source.done a.c_reader.reader) [
    | some e ↦ inl (a.c_reader, err (of_context e))
    | none ↦
        let (r, read) = cache_payload a.cache_deadline a.c_reader in
        elim read [
          | err e ↦ inl (r, err (of_reader e))
          | ok payload ↦ look network payload (record a {
            c_reader = r;
            cache_deadline = sub64 a.cache_deadline (source.elapsed a.c_reader.reader r.reader);
          })
        ]
  ]

  -- The loop, for at most as many rounds as the fuel.
  unfoldable pub content_loop : ℕ → ℕ → Attempt H → Option (Outcome H)
  unfolding round
  content_loop network zero a = none
  content_loop network (suc fuel) a = elim (round network a) [
    | inl outcome ↦ some outcome
    | inr a' ↦ content_loop network fuel a'
  ]

  unfoldable pub sniffer : ℕ → Bool → ℕ → List ProtocolSniffer → CachedReader H → Option (Outcome H)
  unfolding content_loop combine sniff_metadata
  sniffer fuel metadata_only network ss r =
      let (ss', meta) = sniff_metadata ss in
      let content = content_loop network fuel (start r ss') in
      if metadata_only
      then some (r, meta)
      else elim content [ none ↦ none | some (r', x) ↦ some (r', combine meta x) ]
