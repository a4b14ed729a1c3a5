-- ===== src/Core/Xray/Dispatch/Link.antt =====
-- core/xray/app/dispatcher/default.go: DispatchLink, for a link whose ends the caller has.
use v2b_z.Prelude.{
  ℕ, Bool, true, false, not, ◌&&◌, [], ◌∷◌, Option, none, some, if◌then◌else◌, is_empty, Result, ok,
  err,
}
use v2b_z.Prelude.Int.{ℤ}
use v2b_z.Prelude.Text.{Text, text_eq}
use v2b_z.Prelude.GoMap.{lookup, insert}
use v2b_z.Limiter.Types.{Limiter, Bucket}
use v2b_z.Limiter.Check.{check_limit}
use v2b_z.Core.Xray.Dispatcher.{
  pipe_reader, counter_reader, Dispatcher, Pipes, Inbound, LinkError, no_limiter, limited, register,
  remove_writer,
}
use v2b_z.Core.Xray.Dispatch.{
  Address, Destination, SniffingRequest, SniffResult, Targets, Routing, apply_sniff, shut_link,
  routed_dispatch,
}

-- The two ends that the caller has; an interrupt of the reader itself is taken to reach it.
pub record Link : Type 0 where
  pub writer : ℕ
  pub reader : ℕ

pub data DispatchError : Type 0 where
  invalid_destination : DispatchError
  -- The panic of the assertion that the reader is a TimeoutReader.
  no_timeout_reader : DispatchError
  of_link : LinkError → DispatchError

-- The part for a user with an email, as in getLink; here only the two ends of the link are shut.
unfoldable pub admit_link :
    Text
    → Inbound
    → Bool
    → ℤ
    → Link
    → Option Limiter
    → Dispatcher × Pipes
    → Option Limiter × (Dispatcher × Pipes) × Result LinkError (Option Bucket)
unfolding register shut_link
admit_link [] inbound is_tcp now k l (d, p) = (l, (d, p), ok none)
admit_link (c ∷ email) inbound is_tcp now k none (d, p) =
    (none, (d, shut_link k.writer (pipe_reader k.reader) p), err no_limiter)
admit_link (c ∷ email) inbound is_tcp now k (some l) (d, p) =
    let (l', bucket, reject) =
      check_limit (c ∷ email) inbound.source_ip is_tcp inbound.source_tcp now l in
    if reject then (some l', (d, shut_link k.writer (pipe_reader k.reader) p), err limited) else (
      some l',
      (register inbound.tag (c ∷ email) k.writer (counter_reader k.reader) d, p),
      ok bucket,
    )

-- To close the managed writer of a user takes it out of the table.
unfoldable pub unlink : Text → ℕ → Dispatcher → Dispatcher
unfolding remove_writer
unlink [] writer d = d
unlink (c ∷ email) writer d = elim (lookup (c ∷ email) d.link_managers) [
  | none ↦ d
  | some m ↦ record d {
    link_managers = insert (c ∷ email) (remove_writer writer m) d.link_managers;
  }
]

-- What routedDispatch leaves of the table.
unfoldable pub after_route : Text → Link → Dispatcher → Option Text → Dispatcher
unfolding unlink
after_route email k d (some h) = d
after_route email k d none = unlink email k.writer d

-- `is_fake` is the fake DNS engine's test, which DispatchLink makes of a domain, too.
module _ (to_lower : Text → Text) (compiles : Text → Bool) (matches : Text → Text → Bool)
    (in_pool is_fake : Address → Bool) (parse : Text → Address) where
  unfoldable pub seen_of_link :
      SniffingRequest → Option SniffResult → Text → Destination → Destination × Text × Targets
  unfolding apply_sniff
  seen_of_link request sniffed content destination =
      if request.enabled
      then apply_sniff to_lower compiles matches in_pool is_fake parse request sniffed content
          destination
      else (destination, [], record { target = destination; route_target = none })

  -- DispatchLink: `ok none` says that the link was shut by routedDispatch, which is no error.
  -- `is_timeout` says that the reader of the caller is a TimeoutReader, as a CounterReader is one.
  -- `sniffed` is what sniffer finds on this link, where the reads of a user's CounterReader wait for a
  -- second, whatever the deadline.
  unfoldable pub dispatch_link :
      Bool
      → Bool
      → Routing
      → Option Text
      → Inbound
      → Destination
      → SniffingRequest
      → Option SniffResult
      → Text
      → ℤ
      → Link
      → Option Limiter
      → Dispatcher × Pipes
      → Option Limiter × (Dispatcher × Pipes) × Result DispatchError (Option Text)
  unfolding seen_of_link routed_dispatch admit_link after_route
  dispatch_link is_valid is_timeout routing user inbound destination request sniffed content now k l
        s =
      let email : Text = elim user [ none ↦ [] | some m ↦ m ] in
      let has_user : Bool = elim user [ none ↦ false | some m ↦ true ] in
      let (l', (d, p), linked) = admit_link email inbound destination.tcp now k l s in
      if not is_valid then (l, s, err invalid_destination) else elim linked [
        | err x ↦ (l', (d, p), err (of_link x))
        | ok bucket ↦
            let (target, protocol, targets) = seen_of_link request sniffed content destination in
            let reader =
              (if is_empty email then pipe_reader k.reader else counter_reader k.reader) in
            let (p', handler) =
              routed_dispatch matches routing has_user (if is_empty email then none else l') l'
                target protocol (k.writer, reader) p in
            if is_empty email && not is_timeout && request.enabled
            then (l', (d, p), err no_timeout_reader)
            else (l', (after_route email k d handler, p'), ok handler)
      ]
