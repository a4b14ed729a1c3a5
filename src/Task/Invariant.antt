-- ===== src/Task/Invariant.antt =====
-- common/task/task.go: what holds after every sequence of events.
use v2b_z.Prelude.{
  ℕ, suc, ◌<◌, ◌≡◌, refl, ◌⊎◌, inl, inr, Bool, true, false, List, [], ◌∷◌, some, arith, get_elem?,
  Option-cases,
}
use v2b_z.Task.{
  Thread, entering, waiting, executing, Task, new_task, is_closed, close_stop, start, close, Event,
  starts, closes, enters, ticks, stops, returns, fails, thread_step, thread_event, index, step, run,
}

-- All channels of a list were made before.
abbrev pub AllBelow : ℕ → List ℕ → Type 0
AllBelow n [] = Unit
AllBelow n (c ∷ cs) = (c < n) × AllBelow n cs

AllBelow-suc : (n : ℕ) (cs : List ℕ) → AllBelow n cs → AllBelow (suc n) cs
AllBelow-suc n [] h = tt
AllBelow-suc n (c ∷ cs) h = (omega (arith, h.0), AllBelow-suc n cs h.1)

is_closed-AllBelow : (n : ℕ) (cs : List ℕ) → AllBelow n cs → is_closed n cs ≡ false
is_closed-AllBelow n [] h = refl
is_closed-AllBelow n (c ∷ cs) h = ground (arith, h.0, is_closed-AllBelow n cs h.1)

abbrev pub StopIs : Bool → ℕ → List ℕ → Type 0
StopIs true stop closed = is_closed stop closed ≡ false
StopIs false stop closed = (stop ≡ 0) ⊎ (is_closed stop closed ≡ true)

-- The stop channel was made before, and is open exactly as long as the task runs; a task that was
-- never started has none.
abbrev pub IsValid : Task → Type 0
IsValid t = (t.stop < t.next) × AllBelow t.next t.closed × StopIs t.running t.stop t.closed

new_task-IsValid : IsValid new_task
new_task-IsValid = (omega arith, tt, inl refl)

start-IsValid : (first : Bool) (t : Task) → IsValid t → IsValid (start first t)
unfolding start
start-IsValid first t v =
    ground (arith, AllBelow-suc t.next t.closed, is_closed-AllBelow t.next t.closed)

close-IsValid : (t : Task) → IsValid t → IsValid (close t)
unfolding close close_stop
close-IsValid t v = ground (arith)

thread_step-IsValid :
    (e : Event) (i : ℕ) (th : Thread) (t t' : Task)
    → IsValid t
    → thread_step e i th t ≡ some t'
    → IsValid t'
unfolding thread_step close_stop
thread_step-IsValid (enters _) i entering t t' v h = ground arith
thread_step-IsValid (ticks _) i (waiting c) t t' v h = ground arith
thread_step-IsValid (stops _) i (waiting c) t t' v h = ground arith
thread_step-IsValid (returns _) i executing t t' v h = ground arith
thread_step-IsValid (fails _) i executing t t' v h = ground arith
thread_step-IsValid _ _ _ t t' v h = cc

thread_event-IsValid :
    (e : Event) (t t' : Task) → IsValid t → thread_event e t ≡ some t' → IsValid t'
unfolding thread_event
thread_event-IsValid e t t' v h = elim (Option-cases (get_elem? t.threads (index e))) [
  | inl n ↦ ground (arith, n, h)
  | inr (th, n) ↦ thread_step-IsValid e (index e) th t t' v (rw (n, thread_event) at h)
]

step-IsValid : (e : Event) (t t' : Task) → IsValid t → step e t ≡ some t' → IsValid t'
unfolding step
step-IsValid (starts first) t t' v h = ground (arith, start-IsValid first t v)
step-IsValid closes t t' v h = ground (arith, close-IsValid t v)
step-IsValid (enters i) t t' v h = ground (arith, thread_event-IsValid (enters i) t t' v)
step-IsValid (ticks i) t t' v h = ground (arith, thread_event-IsValid (ticks i) t t' v)
step-IsValid (stops i) t t' v h = ground (arith, thread_event-IsValid (stops i) t t' v)
step-IsValid (returns i) t t' v h = ground (arith, thread_event-IsValid (returns i) t t' v)
step-IsValid (fails i) t t' v h = ground (arith, thread_event-IsValid (fails i) t t' v)

-- After every sequence of events from a new task the stop channel is open exactly as long as the task runs.
pub run-IsValid : (es : List Event) (t t' : Task) → IsValid t → run es t ≡ some t' → IsValid t'
unfolding run
run-IsValid [] t t' v h = ground arith
run-IsValid (e ∷ es) t t' v h = elim (Option-cases (step e t)) [
  | inl n ↦ ground (arith, n, h)
  | inr (u, n) ↦ run-IsValid es u t' (step-IsValid e t u v n) (rw (n, run) at h)
]

-- After every sequence of events from a new task, the stop channel was made before and is open
-- exactly as long as the task runs, or the task was never started.
pub new_task-run-IsValid : (es : List Event) (t : Task) → run es new_task ≡ some t → IsValid t
new_task-run-IsValid es t h = run-IsValid es new_task t new_task-IsValid h
