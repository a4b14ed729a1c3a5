-- ===== src/Core/Xray/Dispatch/Same.antt =====
-- core/xray/app/dispatcher/default.go: DispatchLink beside Dispatch.
use v2b_z.Prelude.{nat_eq, ◌≡◌, [], ◌∷◌, Option, none, some, Result, ok, err}
use v2b_z.Prelude.Text.{Text, text_eq}
use v2b_z.Limiter.Types.{Limiter}
use v2b_z.Core.Xray.Dispatcher.{counter_reader, Dispatcher, Pipes, LinkError}
use v2b_z.Core.Xray.Dispatch.Link.{Link, DispatchError, of_link}
use v2b_z.Core.Xray.Dispatch.Safe.{links_of}
use v2b_z.Prelude.GoMap.{lookup}

abbrev answer_of : Result LinkError (Option Text) → Result DispatchError (Option Text)
answer_of (ok h) = ok h
answer_of (err x) = err (of_link x)

abbrev email_of : Option Text → Text
email_of none = []
email_of (some m) = m

-- Where the link of a user is in the table.
abbrev IsListed : Text → Link → Result DispatchError (Option Text) → Dispatcher → Type 0
IsListed [] k x d = Unit
IsListed (c ∷ email) k (err x) d = Unit
IsListed (c ∷ email) k (ok (some h)) d =
    lookup k.writer (links_of (c ∷ email) d) ≡ some (counter_reader k.reader)
IsListed (c ∷ email) k (ok none) d = lookup k.writer (links_of (c ∷ email) d) ≡ none

-- The same limiter, answer and counters, and the link in the table as long as an outbound has it.
abbrev pub IsAnsweredAs :
    Text
    → Link
    → Option Limiter × (Dispatcher × Pipes) × Result DispatchError (Option Text)
    → Option Limiter × (Dispatcher × Pipes) × Result LinkError (Option Text)
    → Type 0
IsAnsweredAs email k a b =
    (a.0 ≡ b.0)
    × (a.2 ≡ answer_of b.2)
    × (a.1.0.counter ≡ b.1.0.counter)
    × IsListed email k a.2 a.1.0
