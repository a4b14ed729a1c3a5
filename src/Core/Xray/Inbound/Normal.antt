-- ===== src/Core/Xray/Inbound/Normal.antt =====
-- core/xray/inbound.go: the normal form of a transport and of its settings.
use v2b_z.Prelude.{Option, none, some, Result, ok, err, ◌==◌, ◌||◌, is_empty, if◌then◌else◌, []}
use v2b_z.Prelude.Text.{Text, text, text_eq}
use v2b_z.Core.Types.{Failure, message}

-- `to_lower` and `trim_space` are those of package strings; `trim_bytes` is bytes.TrimSpace.
unfoldable pub normalize_transport_network : (Text → Text) → (Text → Text) → Text → Text
normalize_transport_network to_lower trim_space network =
    let n = to_lower (trim_space network) in
    if is_empty n then text "tcp" else if n == text "http" then text "httpupgrade" else n

unfoldable pub normalize_trojan_network : (Text → Text) → (Text → Text) → Text → Result Failure Text
unfolding normalize_transport_network
normalize_trojan_network to_lower trim_space network =
    let n = normalize_transport_network to_lower trim_space network in
    if n == text "tcp" || n == text "ws" || n == text "grpc"
    then ok n
    else err (message (text "unsupported network"))

-- The length of the result is all that tells a nil one from an empty one.
unfoldable pub normalize_network_settings : (Text → Text) → Option Text → Text
normalize_network_settings trim_bytes none = []
normalize_network_settings trim_bytes (some raw) =
    let trimmed = trim_bytes raw in
    if is_empty trimmed || trimmed == text "null"
    then []
    else if trimmed == text "[]"
    then text "{}"
    else trimmed
