-- ===== src/Core/Xray/Dispatcher.antt =====
-- core/xray/app/dispatcher: linkmanager.go, countreader.go and getLink of default.go. Pipes are the
-- library's: an end of a pipe is its number, and the two lists say which ends are closed.
use v2b_z.Prelude.{
  ℕ, Bool, List, [], ◌∷◌, Option, none, some, nat_eq, if◌then◌else◌, Result, ok, err,
}
use v2b_z.Prelude.Int.{ℤ, pos, add64, ltb_ℤ}
use v2b_z.Prelude.Text.{Text, text_eq}
use v2b_z.Prelude.GoMap.{GoMap, lookup, insert, delete}
use v2b_z.Counter.{TrafficCounter, get_counter}
use v2b_z.Limiter.Types.{Limiter, Bucket}
use v2b_z.Limiter.Check.{check_limit}

-- A reader: the end of a pipe, or a CounterReader around such an end.
pub data Reader : Type 0 where
  pipe_reader counter_reader : ℕ → Reader

-- The links of a user: the managed writer, and the reader that belongs to it.
abbrev pub LinkManager : Type 0
LinkManager = GoMap ℕ Reader

pub record Pipes : Type 0 where
  pub closed : List ℕ
  pub interrupted : List ℕ

-- common.Interrupt: a CounterReader has neither Interrupt nor Close, so that nothing happens.
unfoldable pub interrupt : Reader → Pipes → Pipes
interrupt (pipe_reader r) p = record p { interrupted = r ∷ p.interrupted }
interrupt (counter_reader r) p = p

unfoldable pub add_link : ℕ → Reader → LinkManager → LinkManager
add_link writer reader m = insert writer reader m

unfoldable pub remove_writer : ℕ → LinkManager → LinkManager
remove_writer writer m = delete writer m

-- ManagedWriter.Close
unfoldable pub close_writer : ℕ → LinkManager × Pipes → LinkManager × Pipes
unfolding remove_writer
close_writer w (m, p) = (remove_writer w m, record p { closed = w ∷ p.closed })

-- The loop of CloseAll, over the links that the map had at its start: a link that is removed in the
-- loop is the one that is being visited.
unfoldable pub close_links : LinkManager → LinkManager × Pipes → LinkManager × Pipes
unfolding close_writer interrupt
close_links [] s = s
close_links ((w, r) ∷ links) s =
    let (m, p) = close_writer w s in close_links links (m, interrupt r p)

unfoldable pub close_all : LinkManager → Pipes → LinkManager × Pipes
unfolding close_links
close_all m p = close_links m (m, p)

-- CounterReader: what a read of the reader below adds, `failed` says whether it failed.
unfoldable pub count_read : Bool → ℤ → ℤ → ℤ
count_read failed n counter =
    if failed then counter else if ltb_ℤ (pos 0) n then add64 counter n else counter

pub record Dispatcher : Type 0 where
  pub counter : GoMap Text TrafficCounter
  pub link_managers : GoMap Text LinkManager

-- The ends of the two new pipes of a connection.
pub record Ends : Type 0 where
  pub uplink_reader : ℕ
  pub uplink_writer : ℕ
  pub downlink_reader : ℕ
  pub downlink_writer : ℕ

-- The inbound session: its tag, the source address, and whether the source is a TCP connection.
pub record Inbound : Type 0 where
  pub tag : Text
  pub source_ip : Text
  pub source_tcp : Bool

pub data LinkError : Type 0 where
  no_limiter limited : LinkError

unfoldable pub shut : Ends → Pipes → Pipes
shut e p = record {
  closed = e.uplink_writer ∷ e.downlink_writer ∷ p.closed;
  interrupted = e.downlink_reader ∷ e.uplink_reader ∷ p.interrupted;
}

-- What getLink registers for a user whose connection is served.
unfoldable pub register : Text → Text → ℕ → Reader → Dispatcher → Dispatcher
unfolding add_link
register tag email writer reader d =
    let links : LinkManager = elim (lookup email d.link_managers) [ none ↦ [] | some m ↦ m ] in
    let users : TrafficCounter = elim (lookup tag d.counter) [ none ↦ [] | some c ↦ c ] in
    record {
      counter = insert tag (get_counter email users).0 d.counter;
      link_managers = insert email (add_link writer reader links) d.link_managers;
    }

-- `limiter` is what the registry has under the tag; the email of the user is his key there. The
-- result has the bucket of the link, if its writers are rate limited.
unfoldable pub get_link :
    Text
    → Inbound
    → Bool
    → ℤ
    → Ends
    → Option Limiter
    → Dispatcher × Pipes
    → Option Limiter × (Dispatcher × Pipes) × Result LinkError (Option Bucket)
unfolding register shut
get_link [] inbound is_tcp now e l (d, p) = (l, (d, p), ok none)
get_link (c ∷ email) inbound is_tcp now e none (d, p) = (none, (d, shut e p), err no_limiter)
get_link (c ∷ email) inbound is_tcp now e (some l) (d, p) =
    let (l', bucket, reject) =
      check_limit (c ∷ email) inbound.source_ip is_tcp inbound.source_tcp now l in
    if reject then (some l', (d, shut e p), err limited) else (
      some l',
      (register inbound.tag (c ∷ email) e.uplink_writer (pipe_reader e.uplink_reader) d, p),
      ok bucket,
    )
