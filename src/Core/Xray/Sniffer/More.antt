-- ===== src/Core/Xray/Sniffer/More.antt =====
-- core/xray/app/dispatcher: protocols that need more data than the first read gives.
use v2b_z.Prelude.{
  ℕ, suc, ◌++◌, ◌≡◌, refl, arith, true, false, List, [], ◌∷◌, none, some, is_empty, ok, err, ◌⊎◌,
  inl, inr,
}
use v2b_z.Prelude.Text.{Text, take}
use v2b_z.Core.Xray.Sniffer.{
  ProtocolSniffer, needs_more, unknown_content, is_skipped, scan, settle, sniff, Source, Attempt,
  cache_payload, switch_error, look, round, content_loop,
}

-- Each sniffer of the network needs more data than the payload.
abbrev pub NeedMore : ℕ → Text → List ProtocolSniffer → Type 0
NeedMore network payload [] = Unit
NeedMore network payload (s ∷ ss) =
    ((is_skipped network s ≡ true) ⊎ (s.protocol_sniffer payload ≡ needs_more))
    × NeedMore network payload ss

scan-NeedMore :
    (network : ℕ) (payload : Text) (ss : List ProtocolSniffer)
    → NeedMore network payload ss
    → scan (is_skipped network) false payload ss ≡ ([], none)
unfolding scan
scan-NeedMore network payload [] h = refl
scan-NeedMore network payload (s ∷ ss) (inl p, h) =
    ground (arith, p, scan-NeedMore network payload ss h)
scan-NeedMore network payload (s ∷ ss) (inr p, h) =
    ground (arith, p, scan-NeedMore network payload ss h)

-- If the first read of the loop gives a payload, and each sniffer of the network needs more data than
-- that, then the loop ends at once, and the content is unknown: no more is read.
pub content_loop-NeedMore :
    {H : Type 0} (source : Source H) (network fuel : ℕ) (a : Attempt H) (h : H) (mb : Text)
    → source.done a.c_reader.reader ≡ none
    → source.read_multi_buffer_timeout a.cache_deadline a.c_reader.reader ≡ (h, ok mb)
    → is_empty (take source.payload_cap (a.c_reader.cache ++ mb)) ≡ false
    → NeedMore network (take source.payload_cap (a.c_reader.cache ++ mb)) a.sniffers
    → content_loop source network (suc fuel) a
      ≡ some (record { reader = h; cache = a.c_reader.cache ++ mb }, err unknown_content)
unfolding content_loop round look sniff settle switch_error cache_payload
content_loop-NeedMore source network fuel a h mb live read full more =
    ground (arith, live, read, full, scan-NeedMore network _ a.sniffers more)
