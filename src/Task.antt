-- ===== src/Task.antt =====
-- common/task/task.go: a task that is run again and again in a goroutine. A channel is a number, and
-- `closed` holds the closed ones. An event is one step of a caller or of a goroutine; the lock makes
-- the body of Start and of Close one step. `crashed` is the panic of a second close of a channel.
pub mod Invariant
pub mod Restart
use v2b_z.Prelude.{
  ℕ, zero, suc, ◌+◌, ◌≡◌, Bool, true, false, ◌||◌, List, [], ◌∷◌, ◌++◌, Option, none, some, nat_beq,
  if◌then◌else◌, get_elem?, set,
}

pub data Thread : Type 0 where
  -- At the head of the loop; in the select, which waits on a channel; in Execute; at its end.
  entering : Thread
  waiting : ℕ → Thread
  executing done : Thread

pub record Task : Type 0 where
  pub running : Bool
  pub stop : ℕ
  pub closed : List ℕ
  pub next : ℕ
  pub threads : List Thread
  pub crashed : Bool

abbrev pub new_task : Task
new_task = record {
  running = false;
  stop = 0;
  closed = [];
  next = 1;
  threads = [];
  crashed = false;
}

abbrev pub is_closed : ℕ → List ℕ → Bool
is_closed c [] = false
is_closed c (d ∷ ds) = nat_beq d c || is_closed c ds

-- close(t.stop)
unfoldable pub close_stop : Task → Task
close_stop t =
    if is_closed t.stop t.closed
    then record t { crashed = true }
    else record t { closed = t.stop ∷ t.closed }

-- Start; the goroutine reads the channel later, when it enters the select.
unfoldable pub start : Bool → Task → Task
start first t = if t.running then t else record t {
  running = true;
  stop = t.next;
  next = suc t.next;
  threads = t.threads ++ (if first then executing else entering) ∷ [];
}

unfoldable pub close : Task → Task
unfolding close_stop
close t = if t.running then close_stop (record t { running = false }) else t

pub data Event : Type 0 where
  starts : Bool → Event
  closes : Event
  -- The select is entered; the interval passes; the channel is closed; Execute returns nil, and the
  -- select is entered; Execute returns an error.
  enters ticks stops returns fails : ℕ → Event

-- A goroutine at the given event; the channel that a select waits on is read when it is entered.
unfoldable pub thread_step : Event → ℕ → Thread → Task → Option Task
unfolding close_stop
thread_step (enters _) i entering t = some (record t { threads = set t.threads i (waiting t.stop) })
thread_step (ticks _) i (waiting c) t = some (record t { threads = set t.threads i executing })
thread_step (stops _) i (waiting c) t =
    if is_closed c t.closed then some (record t { threads = set t.threads i done }) else none
thread_step (returns _) i executing t =
    some (record t { threads = set t.threads i (waiting t.stop) })
thread_step (fails _) i executing t =
    some (close_stop (record t { running = false; threads = set t.threads i done }))
thread_step _ _ _ _ = none

abbrev pub index : Event → ℕ
index (starts b) = 0
index closes = 0
index (enters i) = i
index (ticks i) = i
index (stops i) = i
index (returns i) = i
index (fails i) = i

-- `none` says that the event cannot happen; nothing happens after a crash.
unfoldable pub thread_event : Event → Task → Option Task
thread_event e t = elim (get_elem? t.threads (index e)) [
  | none ↦ none
  | some th ↦ thread_step e (index e) th t
]

unfoldable pub step : Event → Task → Option Task
step (starts first) t = if t.crashed then none else some (start first t)
step closes t = if t.crashed then none else some (close t)
step (enters i) t = if t.crashed then none else thread_event (enters i) t
step (ticks i) t = if t.crashed then none else thread_event (ticks i) t
step (stops i) t = if t.crashed then none else thread_event (stops i) t
step (returns i) t = if t.crashed then none else thread_event (returns i) t
step (fails i) t = if t.crashed then none else thread_event (fails i) t

unfoldable pub run : List Event → Task → Option Task
run [] t = some t
run (e ∷ es) t = elim (step e t) [ none ↦ none | some t' ↦ run es t' ]
