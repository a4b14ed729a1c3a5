-- ===== src/Task/Restart.antt =====
-- common/task/task.go: a task that is restarted, or closed, while it executes.
use v2b_z.Prelude.{length-set, ap, ◌≢◌}
use v2b_z.Prelude.{
  ℕ, zero, suc, ◌<◌, ◌≡◌, refl, true, false, List, [], ◌∷◌, ◌++◌, some, arith, get_elem?, set,
  length,
}
use v2b_z.Task.{
  entering, waiting, executing, done, Task, is_closed, close_stop, start, close, starts, closes,
  enters, returns, fails, thread_step, thread_event, step, run,
}

get_elem?-append {ℓ} :
    {A : Type ℓ} (xs ys : List A) (i : ℕ) (a : A)
    → get_elem? xs i ≡ some a
    → get_elem? (xs ++ ys) i ≡ some a
get_elem?-append [] ys i a h = cc
get_elem?-append (x ∷ xs) ys zero a h = h
get_elem?-append (x ∷ xs) ys (suc i) a h = get_elem?-append xs ys i a h

get_elem?-last {ℓ} :
    {A : Type ℓ} (xs : List A) (a : A) → get_elem? (xs ++ a ∷ []) (length xs) ≡ some a
get_elem?-last [] a = refl
get_elem?-last (x ∷ xs) a = get_elem?-last xs a

get_elem?-set_self {ℓ} :
    {A : Type ℓ} (xs : List A) (i : ℕ) (a b : A)
    → get_elem? xs i ≡ some a
    → get_elem? (set xs i b) i ≡ some b
get_elem?-set_self [] i a b h = cc
get_elem?-set_self (x ∷ xs) zero a b h = refl
get_elem?-set_self (x ∷ xs) (suc i) a b h = get_elem?-set_self xs i a b h

set-append {ℓ} :
    {A : Type ℓ} (xs ys : List A) (i : ℕ) (a b : A)
    → get_elem? xs i ≡ some a
    → set (xs ++ ys) i b ≡ set xs i b ++ ys
set-append [] ys i a b h = cc
set-append (x ∷ xs) ys zero a b h = refl
set-append (x ∷ xs) ys (suc i) a b h = ap (◌∷◌ x) (set-append xs ys i a b h)

set-last {ℓ} :
    {A : Type ℓ} (xs : List A) (a b : A) → set (xs ++ a ∷ []) (length xs) b ≡ xs ++ b ∷ []
set-last [] a b = refl
set-last (x ∷ xs) a b = ap (◌∷◌ x) (set-last xs a b)

lt_of_get_elem? {ℓ} :
    {A : Type ℓ} (xs : List A) (i : ℕ) (a : A) → get_elem? xs i ≡ some a → i < length xs
lt_of_get_elem? [] i a h = cc
lt_of_get_elem? (x ∷ xs) zero a h = omega arith
lt_of_get_elem? (x ∷ xs) (suc i) a h = omega (arith, lt_of_get_elem? xs i a h)

-- What is left of a task that was closed and started again by the goroutine i that executes it, when
-- that goroutine returns from Execute.
abbrev pub restarted : ℕ → Task → Task
restarted i t = record t {
  running = true;
  stop = t.next;
  closed = t.stop ∷ t.closed;
  next = suc t.next;
  threads = set t.threads i (waiting t.next) ++ waiting t.next ∷ [];
}

-- A live running task that is closed and started again while its goroutine executes goes on in two
-- goroutines that wait for the same channel.
pub run-restarted :
    (i : ℕ) (t : Task)
    → t.crashed ≡ false
    → t.running ≡ true
    → is_closed t.stop t.closed ≡ false
    → get_elem? t.threads i ≡ some executing
    → (run (closes ∷ starts false ∷ enters (length t.threads) ∷ returns i ∷ []) t
        ≡ some (restarted i t))
      × (get_elem? (restarted i t).threads i ≡ some (waiting t.next))
      × (get_elem? (restarted i t).threads (length t.threads) ≡ some (waiting t.next))
      × (i ≢ length t.threads)
unfolding run step start close close_stop thread_event thread_step
run-restarted i t alive running opened at_i = (
  ground (
    arith,
    get_elem?-last t.threads entering,
    set-last t.threads entering (waiting t.next),
    get_elem?-append t.threads (waiting t.next ∷ []) i executing at_i,
    set-append t.threads (waiting t.next ∷ []) i executing (waiting t.next) at_i,
  ),
  get_elem?-append (set t.threads i (waiting t.next)) (waiting t.next ∷ []) i (waiting t.next)
      (get_elem?-set_self t.threads i executing (waiting t.next) at_i),
  rw (length-set t.threads i (waiting t.next)) at
      (get_elem?-last (set t.threads i (waiting t.next)) (waiting t.next)),
  λ e. absurd (omega (arith, e, lt_of_get_elem? t.threads i executing at_i)),
)

-- A live running task that is closed while its goroutine executes crashes if that execution fails.
pub run-crashed :
    (i : ℕ) (t : Task)
    → t.crashed ≡ false
    → t.running ≡ true
    → is_closed t.stop t.closed ≡ false
    → get_elem? t.threads i ≡ some executing
    → (u : Task) × (run (closes ∷ fails i ∷ []) t ≡ some u) × (u.crashed ≡ true)
unfolding run step close close_stop thread_event thread_step
run-crashed i t alive running opened at_i = (
  record t {
    running = false;
    closed = t.stop ∷ t.closed;
    threads = set t.threads i done;
    crashed = true;
  },
  ground (arith),
  refl,
)
