-- ===== src/Core/Xray/Inbound/Fallbacks.antt =====
-- core/xray/inbound.go: the fallbacks of a vless and of a trojan inbound. `marshal` is json.Marshal of
-- a text, which does not fail.
use v2b_z.Prelude.{
  List, [], ◌∷◌, Option, none, some, Result, ok, err, is_empty, if◌then◌else◌, ◌>>=◌,
}
use v2b_z.Prelude.Text.{Text, text}
use v2b_z.Conf.Xray.{FallBackConfigForXray}
use v2b_z.Core.Types.{Failure, message}
use v2b_z.Core.Xray.Inbound.{Fallback}

module _ (marshal : Text → Text) where
  abbrev fallback : FallBackConfigForXray → Fallback
  fallback c = record {
    name = c.sni;
    alpn = c.alpn;
    path = c.path;
    dest = marshal c.dest;
    xver = c.proxy_protocol_ver;
  }

  -- The loop of either function.
  unfoldable pub fallbacks : List FallBackConfigForXray → Result Failure (List Fallback)
  fallbacks [] = ok []
  fallbacks (c ∷ cs) =
      let rest = fallbacks cs in
      if is_empty c.dest
      then err (message (text "dest is required for fallback fialed"))
      else rest >>= λ fs. ok (fallback c ∷ fs)

  unfoldable pub build_vless_fallbacks :
      Option (List FallBackConfigForXray) → Result Failure (List Fallback)
  unfolding fallbacks
  build_vless_fallbacks none = err (message (text "you must provide FallBackConfigs"))
  build_vless_fallbacks (some cs) = fallbacks cs

  unfoldable pub build_trojan_fallbacks :
      Option (List FallBackConfigForXray) → Result Failure (List Fallback)
  unfolding fallbacks
  build_trojan_fallbacks none = err (message (text "you must provide FallBackConfigs"))
  build_trojan_fallbacks (some cs) = fallbacks cs
