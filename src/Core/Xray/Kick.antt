-- ===== src/Core/Xray/Kick.antt =====
-- core/xray/user.go and linkmanager.go: a deleted user loses his links.
use v2b_z.Prelude.{
  ℕ, ◌≡◌, ap, ◌||◌, Bool, true, false, List, [], ◌∷◌, Option, none, some, arith, ◌==◌, nat_eq,
  if◌then◌else◌, ok, Option-cases, Bool-cases, inl, inr, nat_beq,
}
use v2b_z.Prelude.Text.{Text, text_eq, text_beq_iff}
use v2b_z.Prelude.GoMap.{lookup, delete, lookup-delete}
use v2b_z.Panel.{UserInfo}
use v2b_z.Limiter.Types.{user_tag, user_tag_injective}
use v2b_z.Core.Types.{Failure}
use v2b_z.Core.Hy2.Users.{is_among}
use v2b_z.Core.Xray.Dispatcher.{
  Reader, pipe_reader, counter_reader, interrupt, LinkManager, Pipes, Dispatcher, close_links,
  close_all,
}
use v2b_z.Core.Xray.Users.{Xray, drop_traffic, drop_links, forget_user, remove_users, del_users}

abbrev pub member : ℕ → List ℕ → Bool
member n [] = false
member n (m ∷ ms) = nat_beq m n || member n ms

-- A reader that is the end of a pipe is interrupted.
abbrev pub IsInterrupted : Pipes → Reader → Type 0
IsInterrupted p (pipe_reader r) = member r p.interrupted ≡ true
IsInterrupted p (counter_reader r) = Unit

-- The writer of the link is closed and its reader interrupted; all links of a manager are shut.
abbrev pub IsShut : Pipes → ℕ → Reader → Type 0
IsShut p w r = (member w p.closed ≡ true) × IsInterrupted p r

abbrev pub AllShut : Pipes → LinkManager → Type 0
AllShut p [] = Unit
AllShut p ((w, r) ∷ m) = IsShut p w r × AllShut p m

closed-keeps :
    (v : ℕ) (p : Pipes) (w : ℕ) (r : Reader)
    → IsShut p w r
    → IsShut (record p { closed = v ∷ p.closed }) w r
closed-keeps v p w (pipe_reader r) h = ground arith
closed-keeps v p w (counter_reader r) h = (ground arith, tt)

interrupt-keeps :
    (s : Reader) (p : Pipes) (w : ℕ) (r : Reader) → IsShut p w r → IsShut (interrupt s p) w r
unfolding interrupt
interrupt-keeps (pipe_reader s) p w (pipe_reader r) h = ground arith
interrupt-keeps (pipe_reader s) p w (counter_reader r) h = h
interrupt-keeps (counter_reader s) p w r h = h

interrupt-IsShut :
    (w : ℕ) (r : Reader) (p : Pipes) → IsShut (interrupt r (record p { closed = w ∷ p.closed })) w r
unfolding interrupt
interrupt-IsShut w (pipe_reader r) p = ground arith
interrupt-IsShut w (counter_reader r) p = (ground arith, tt)

close_links-keeps :
    (links m : LinkManager) (p : Pipes) (w : ℕ) (r : Reader)
    → IsShut p w r
    → IsShut (close_links links (m, p)).1 w r
unfolding close_links
close_links-keeps [] m p w r h = h
close_links-keeps ((v, s) ∷ links) m p w r h =
    close_links-keeps links (delete v m) (interrupt s (record p { closed = v ∷ p.closed })) w r
      (interrupt-keeps s (record p { closed = v ∷ p.closed }) w r (closed-keeps v p w r h))

close_links-AllShut :
    (links m : LinkManager) (p : Pipes) → AllShut (close_links links (m, p)).1 links
unfolding close_links
close_links-AllShut [] m p = tt
close_links-AllShut ((w, r) ∷ links) m p =
    let p' = interrupt r (record p { closed = w ∷ p.closed }) in
    (
      close_links-keeps links (delete w m) p' w r (interrupt-IsShut w r p),
      close_links-AllShut links (delete w m) p',
    )

drop_traffic-links :
    (tag user : Text) (d : Dispatcher) → (drop_traffic tag user d).link_managers ≡ d.link_managers
unfolding drop_traffic
drop_traffic-links tag user d = ground arith

pipes-forget_user :
    (tag user : Text) (x : Xray)
    → (forget_user tag user x).pipes ≡ elim (lookup user x.dispatcher.link_managers) [
      | none ↦ x.pipes
      | some m ↦ (close_all m x.pipes).1
    ]
unfolding forget_user drop_links
pipes-forget_user tag user x = ground (arith, drop_traffic-links tag user x.dispatcher)

forget_user-links :
    (tag user other : Text) (x : Xray)
    → lookup other (forget_user tag user x).dispatcher.link_managers
      ≡ (if user == other then none else lookup other x.dispatcher.link_managers)
unfolding forget_user drop_links
forget_user-links tag user other x = ground (
  arith,
  drop_traffic-links tag user x.dispatcher,
  lookup-delete user other x.dispatcher.link_managers,
  text_beq_iff user other,
)

forget_user-keeps :
    (tag user : Text) (x : Xray) (w : ℕ) (r : Reader)
    → IsShut x.pipes w r
    → IsShut (forget_user tag user x).pipes w r
unfolding close_all
forget_user-keeps tag user x w r h = elim (Option-cases (lookup user x.dispatcher.link_managers)) [
  | inl e ↦ rw (pipes-forget_user tag user x, e) h
  | inr (m, e) ↦ rw (pipes-forget_user tag user x, e) (close_links-keeps m m x.pipes w r h)
]

forget_user-AllShut :
    (tag user : Text) (x : Xray) (links : LinkManager)
    → lookup user x.dispatcher.link_managers ≡ some links
    → AllShut (forget_user tag user x).pipes links
unfolding close_all
forget_user-AllShut tag user x links h =
    rw (pipes-forget_user tag user x, h) (close_links-AllShut links links x.pipes)

-- The links are gone from the table and shut.
abbrev pub IsKicked : Text → LinkManager → Xray → Type 0
IsKicked user links x = (lookup user x.dispatcher.link_managers ≡ none) × AllShut x.pipes links

AllShut-forget_user :
    (tag user : Text) (x : Xray) (links : LinkManager)
    → AllShut x.pipes links
    → AllShut (forget_user tag user x).pipes links
AllShut-forget_user tag user x [] h = tt
AllShut-forget_user tag user x ((w, r) ∷ links) h =
    (forget_user-keeps tag user x w r h.0, AllShut-forget_user tag user x links h.1)

IsKicked-forget_user :
    (tag user other : Text) (x : Xray) (links : LinkManager)
    → IsKicked other links x
    → IsKicked other links (forget_user tag user x)
IsKicked-forget_user tag user other x links h = (
  ground (arith, h.0, forget_user-links tag user other x),
  AllShut-forget_user tag user x links h.1,
)

module _ {M : Type 0} (has_manager : Text → M → Bool)
    (remove : Text → Text → M → M × Option Failure) where
  remove_users-IsKicked :
      (us : List UserInfo) (tag user : Text) (x : Xray) (m : M) (links : LinkManager)
      → IsKicked user links x
      → IsKicked user links (remove_users has_manager remove us tag (x, m)).0
  unfolding remove_users
  remove_users-IsKicked [] tag user x m links h = h
  remove_users-IsKicked (u ∷ us) tag user x m links h =
      let key = user_tag tag u.uuid in
      elim (Option-cases (remove tag key m).1) [
        | inl e ↦
            rw (e, remove_users)
              (remove_users-IsKicked us tag user (forget_user tag key x) (remove tag key m).0 links
                (IsKicked-forget_user tag key user x links h))
        | inr (f, e) ↦ rw (e, remove_users) h
      ]

  remove_users-kicks :
      (us : List UserInfo) (tag uuid : Text) (x : Xray) (m : M) (links : LinkManager)
      → is_among uuid us ≡ true
      → lookup (user_tag tag uuid) x.dispatcher.link_managers ≡ some links
      → (remove_users has_manager remove us tag (x, m)).2 ≡ ok tt
      → IsKicked (user_tag tag uuid) links (remove_users has_manager remove us tag (x, m)).0
  unfolding remove_users
  remove_users-kicks [] tag uuid x m links a h done = cc
  remove_users-kicks (u ∷ us) tag uuid x m links a h done =
      let key = user_tag tag u.uuid in
      elim (Option-cases (remove tag key m).1) [
        | inr (f, e) ↦ absurd (ground (arith, done, e))
        | inl e ↦ elim (Bool-cases (u.uuid == uuid)) [
          | inl same ↦
              let kq = ap (user_tag tag) ((text_beq_iff u.uuid uuid).0 same) in
              rw (e, remove_users)
                (remove_users-IsKicked us tag (user_tag tag uuid) (forget_user tag key x)
                  (remove tag key m).0 links
                  (
                    ground (
                      arith,
                      kq,
                      forget_user-links tag key (user_tag tag uuid) x,
                      text_beq_iff key (user_tag tag uuid),
                    ),
                    forget_user-AllShut tag key x links (rw kq h),
                  ))
          | inr other ↦
              rw (e, remove_users)
                (remove_users-kicks us tag uuid (forget_user tag key x) (remove tag key m).0 links
                  (ground (arith, a, other))
                  (ground (
                    arith,
                    h,
                    other,
                    forget_user-links tag key (user_tag tag uuid) x,
                    text_beq_iff key (user_tag tag uuid),
                    text_beq_iff u.uuid uuid,
                    user_tag_injective tag u.uuid uuid,
                  ))
                  (rw (e, remove_users) at done))
        ]
      ]

-- If the user manager accepts the deletion of all users in a list, the links of each of them are
-- gone from the table, the writer of each link is closed, and the reader of each link that is the
-- end of a pipe is interrupted.
pub del_users-IsKicked :
    {M : Type 0} (has_manager : Text → M → Bool) (remove : Text → Text → M → M × Option Failure)
    (us : List UserInfo) (tag uuid : Text) (x : Xray) (m : M) (links : LinkManager)
    → is_among uuid us ≡ true
    → lookup (user_tag tag uuid) x.dispatcher.link_managers ≡ some links
    → (del_users has_manager remove us tag (x, m)).2 ≡ ok tt
    → IsKicked (user_tag tag uuid) links (del_users has_manager remove us tag (x, m)).0
unfolding del_users
del_users-IsKicked has_manager remove us tag uuid x m links a h done =
    elim (Bool-cases (has_manager tag m)) [
      | inl e ↦
          rw (e, del_users)
            (remove_users-kicks has_manager remove us tag uuid x m links a h
              (rw (e, del_users) at done))
      | inr e ↦ absurd (ground (arith, done, e))
    ]
