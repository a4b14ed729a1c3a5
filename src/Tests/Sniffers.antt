-- ===== src/Tests/Sniffers.antt =====
-- The theorems on the sniffers of the xray core, on a client that sends two pieces.
use v2b_z.Prelude.{
  ℕ, ◌≤◌, ◌≡◌, refl, true, false, List, [], ◌∷◌, ◌++◌, none, some, Result, ok, err, inl, inr,
}
use v2b_z.Prelude.Int.{ℤ, pos, sub64}
use v2b_z.Prelude.Text.{Text, text, text_beq}
use v2b_z.Core.Xray.Dispatch.{SniffResult}
use v2b_z.Core.Xray.Sniffer.{
  found, clueless, needs_more, ProtocolSniffer, unknown_content, Source, CachedReader, Outcome,
  content_loop, sniffer, read_cached, start,
}
use v2b_z.Core.Xray.Sniffer.Ends.{sniffer-Ends}
use v2b_z.Core.Xray.Sniffer.Stream.{bytes_of, unread, read-sniffer}
use v2b_z.Core.Xray.Sniffer.More.{content_loop-NeedMore}

-- A reader that gives one piece after the other.
abbrev read_piece : List Text → List Text × Result Text Text
read_piece [] = ([], err (text "EOF"))
read_piece (t ∷ ts) = (ts, ok t)

abbrev pieces : Source (List Text)
pieces = record {
  read_multi_buffer_timeout = λ deadline ts. read_piece ts;
  done = λ ts. none;
  elapsed = λ before after. pos 1000000;
  payload_cap = 32768;
}

abbrev joined : List Text → Text
joined [] = []
joined (t ∷ ts) = t ++ joined ts

pieces_reads :
    (deadline : ℤ) (ts : List Text)
    → joined ts
      ≡ bytes_of (pieces.read_multi_buffer_timeout deadline ts).1
        ++ joined (pieces.read_multi_buffer_timeout deadline ts).0
pieces_reads deadline [] = refl
pieces_reads deadline (t ∷ ts) = refl

abbrev http_result : SniffResult
http_result = record {
  protocol = text "http1";
  domain_name = text "a.example";
  protocol_for_domain = none;
  subset_of = λ t. false;
}

-- It knows a request when it has both pieces.
abbrev http : ProtocolSniffer
http = record {
  protocol_sniffer =
      λ t. elim (text_beq t (text "GET /")) [ true ↦ found http_result | false ↦ clueless ];
  metadata_sniffer = false;
  network = 2;
}

abbrev quic : ProtocolSniffer
quic = record { protocol_sniffer = λ t. needs_more; metadata_sniffer = false; network = 3 }

abbrev client : CachedReader (List Text)
client = record { reader = text "GET" ∷ text " /" ∷ text " HTTP" ∷ []; cache = [] }

abbrev after : Outcome (List Text)
after = (record { reader = text " HTTP" ∷ []; cache = text "GET /" }, ok http_result)

test_sniffer : sniffer pieces 2 false 2 (http ∷ quic ∷ []) client ≡ some after
unfolding sniffer text_beq sub64
test_sniffer = refl

sniffer-Ends_example :
    (o : Outcome (List Text)) × ((fuel : ℕ)
      → 2 ≤ fuel
      → sniffer pieces fuel false 2 (http ∷ quic ∷ []) client ≡ some o)
sniffer-Ends_example = sniffer-Ends pieces false 2 (http ∷ quic ∷ []) client

read-sniffer_example :
    bytes_of (read_cached pieces (pos 5) after.0).1
      ++ unread joined (read_cached pieces (pos 5) after.0).0
    ≡ unread joined client
read-sniffer_example =
    read-sniffer pieces joined pieces_reads 2 false 2 (http ∷ quic ∷ []) client after (pos 5)
      test_sniffer

content_loop-NeedMore_example :
    content_loop pieces 3 1 (start client (http ∷ quic ∷ []))
    ≡ some
        (record { reader = text " /" ∷ text " HTTP" ∷ []; cache = text "GET" }, err unknown_content)
unfolding v2b_z.Core.Xray.Sniffer.is_skipped
content_loop-NeedMore_example =
    content_loop-NeedMore pieces 3 0 (start client (http ∷ quic ∷ []))
      (text " /" ∷ text " HTTP" ∷ []) (text "GET") refl refl refl (inl refl, (inr refl, tt))
