-- ===== src/Core/Xray/Dispatch/Shut.antt =====
-- core/xray: which links are shut: those that Dispatch hands to no outbound, and those of a user who is
-- deleted.
use v2b_z.Prelude.{
  ℕ, nat_eq, ◌≡◌, refl, Bool, true, false, List, [], ◌∷◌, Option, none, some, Result, ok, err,
  arith, is_empty,
}
use v2b_z.Prelude.Int.{ℤ}
use v2b_z.Prelude.Text.{Text, text_eq}
use v2b_z.Prelude.GoMap.{lookup}
use v2b_z.Panel.{UserInfo}
use v2b_z.Limiter.Types.{Limiter, user_tag}
use v2b_z.Core.Types.{Failure}
use v2b_z.Core.Hy2.Users.{is_among}
use v2b_z.Core.Xray.Dispatcher.{
  Reader, pipe_reader, interrupt, LinkManager, Dispatcher, Pipes, Ends, Inbound, LinkError,
  get_link, shut,
}
use v2b_z.Core.Xray.Users.{Xray, del_users}
use v2b_z.Core.Xray.Kick.{IsShut, AllShut, del_users-IsKicked}
use v2b_z.Core.Xray.Dispatch.{
  Address, Destination, SniffingRequest, SniffResult, Routing, routed_dispatch, shut_link, dispatch,
}
use v2b_z.Core.Xray.Dispatch.Safe.{links_of, dispatch-handed}

-- The link went to an outbound.
abbrev pub is_handed : Result LinkError (Option Text) → Bool
is_handed (err e) = false
is_handed (ok none) = false
is_handed (ok (some h)) = true

AllShut-lookup :
    (p : Pipes) (links : LinkManager) (w : ℕ) (r : Reader)
    → AllShut p links
    → lookup w links ≡ some r
    → IsShut p w r
unfolding lookup
AllShut-lookup p [] w r a h = absurd (cc)
AllShut-lookup p ((v, s) ∷ links) w r a h = ground (arith, a.0, a.1, AllShut-lookup p links w r a.1)

links_of-lookup :
    (user : Text) (d : Dispatcher) (w : ℕ) (r : Reader)
    → lookup w (links_of user d) ≡ some r
    → lookup user d.link_managers ≡ some (links_of user d)
unfolding links_of lookup
links_of-lookup user d w r h = ground arith

user_tag-nonempty : (tag uuid : Text) → is_empty (user_tag tag uuid) ≡ false
unfolding user_tag
user_tag-nonempty [] uuid = refl
user_tag-nonempty (c ∷ tag) uuid = refl

module _ (to_lower : Text → Text) (compiles : Text → Bool) (matches : Text → Text → Bool)
    (in_pool : Address → Bool) (parse : Text → Address) where
  -- If Dispatch hands a connection to no outbound, be it for the limiter, for a rule or for want of
  -- a handler, the outbound's writer is closed and its reader interrupted.
  pub dispatch-IsShut :
      (routing : Routing) (user : Option Text) (inbound : Inbound) (destination : Destination)
      (request : SniffingRequest) (sniffed : Option SniffResult) (content : Text) (now : ℤ)
      (e : Ends) (l : Option Limiter) (d : Dispatcher) (p : Pipes)
      → is_handed
          (dispatch to_lower compiles matches in_pool parse routing user inbound destination request
            sniffed content now e l
            (d, p)).2
        ≡ false
      → IsShut
          (dispatch to_lower compiles matches in_pool parse routing user inbound destination request
            sniffed content now e l
            (d, p)).1.1
          e.downlink_writer
          (pipe_reader e.uplink_reader)
  unfolding dispatch get_link routed_dispatch shut shut_link interrupt
  dispatch-IsShut routing user inbound destination request sniffed content now e l d p h =
      ground arith

  -- If xray's user manager accepts the deletion of the users of a node, the uplink of a connection
  -- that Dispatch handed to an outbound before for one of them is gone from the table, and its pipe
  -- is shut at both ends: the writer of the client's side and the reader of the outbound.
  pub dispatch-deleted :
      (routing : Routing) (tag uuid : Text) (inbound : Inbound) (destination : Destination)
      (request : SniffingRequest) (sniffed : Option SniffResult) (content : Text) (now : ℤ)
      (e : Ends) (l l' : Option Limiter) (x : Xray) (d' : Dispatcher) (p' : Pipes) (h : Text)
      {M : Type 0} (has_manager : Text → M → Bool) (remove : Text → Text → M → M × Option Failure)
      (us : List UserInfo) (m : M)
      → dispatch to_lower compiles matches in_pool parse routing
          (some (user_tag tag uuid))
          inbound
          destination
          request
          sniffed
          content
          now
          e
          l
          (x.dispatcher, x.pipes)
        ≡ (l', (d', p'), ok (some h))
      → is_among uuid us ≡ true
      → (del_users has_manager remove us tag (record x { dispatcher = d'; pipes = p' }, m)).2
        ≡ ok tt
      → (lookup
            (user_tag tag uuid)
            (del_users has_manager remove us tag
              (record x { dispatcher = d'; pipes = p' }, m)).0.dispatcher.link_managers
          ≡ none)
        × IsShut
            (del_users has_manager remove us tag
              (record x { dispatcher = d'; pipes = p' }, m)).0.pipes
            e.uplink_writer
            (pipe_reader e.uplink_reader)
  dispatch-deleted routing tag uuid inbound destination request sniffed content now e l l' x d' p' h
        has_manager remove us m g a done =
      let x' = record x { dispatcher = d'; pipes = p' } in
      let (m', is, served, domains, protocols, pipes, linked) =
        dispatch-handed to_lower compiles matches in_pool parse routing (user_tag tag uuid) inbound
          destination request sniffed content now e l l' x.dispatcher d' x.pipes p' h
          (user_tag-nonempty tag uuid) g in
      let found =
        links_of-lookup (user_tag tag uuid) d' e.uplink_writer (pipe_reader e.uplink_reader)
          linked in
      let (gone, all) =
        del_users-IsKicked has_manager remove us tag uuid x' m (links_of (user_tag tag uuid) d') a
          found done in
      (
        gone,
        AllShut-lookup _ (links_of (user_tag tag uuid) d') e.uplink_writer
            (pipe_reader e.uplink_reader) all linked,
      )
