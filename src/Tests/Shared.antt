-- ===== src/Tests/Shared.antt =====
-- The counters, the JSON reader and the task on small inputs.
use v2b_z.Prelude.{ℕ, ◌≡◌, ◌≢◌, refl, true, false, List, [], ◌∷◌, none, some, length, get_elem?}
use v2b_z.Prelude.Int.{pos}
use v2b_z.Prelude.Text.{Text, text, text_eq, text_beq}
use v2b_z.Prelude.GoMap.{lookup}
use v2b_z.Counter.{TrafficStorage, TrafficCounter, zero_storage}
use v2b_z.Counter.Slice.{traffic_slice, all_reported, left_over, traffic_slice_lem}
use v2b_z.Json5.{prep}
use v2b_z.Json5.Blank.{Blanked}
use v2b_z.Json5.Total.{prep-Blanked}
use v2b_z.Task.{
  Task, new_task, executing, waiting, starts, closes, enters, ticks, returns, fails, start, run,
}
use v2b_z.Task.Invariant.{IsValid, new_task-run-IsValid}
use v2b_z.Task.Restart.{restarted, run-restarted}

abbrev used : TrafficStorage
used = record { up_counter = pos 5; down_counter = pos 6 }

abbrev counter : TrafficCounter
counter = (text "a", used) ∷ (text "b", zero_storage) ∷ []

traffic_slice_lem_example :
    ((traffic_slice (pos 3) true ((text "a", pos 7) ∷ []) counter).1
      ≡ all_reported (pos 3) true ((text "a", pos 7) ∷ []) counter)
    × ((j : Text)
        → lookup j (traffic_slice (pos 3) true ((text "a", pos 7) ∷ []) counter).0
          ≡ elim (lookup j counter) [
            | none ↦ none
            | some s ↦ left_over (pos 3) true ((text "a", pos 7) ∷ []) j s
          ])
unfolding lookup text_beq
traffic_slice_lem_example =
    traffic_slice_lem (pos 3) true ((text "a", pos 7) ∷ []) counter (refl, (refl, tt))

prep-Blanked_example :
    (t : List ℕ) × (prep (text "[1,/**/]//") ≡ some t)
    × (length t ≡ length (text "[1,/**/]//"))
    × Blanked (text "[1,/**/]//") t
prep-Blanked_example = prep-Blanked (text "[1,/**/]//")

new_task-run-IsValid_example : IsValid (start false new_task)
unfolding run v2b_z.Task.step
new_task-run-IsValid_example = new_task-run-IsValid (starts false ∷ []) (start false new_task) refl

-- A task that executes.
abbrev busy : Task
busy = record new_task { running = true; stop = 1; next = 2; threads = executing ∷ [] }

run-restarted_example :
    (run (closes ∷ starts false ∷ enters 1 ∷ returns 0 ∷ []) busy ≡ some (restarted 0 busy))
    × (get_elem? (restarted 0 busy).threads 0 ≡ some (waiting 2))
    × (get_elem? (restarted 0 busy).threads 1 ≡ some (waiting 2))
    × (◌≢◌ {A = ℕ} 0 1)
run-restarted_example = run-restarted 0 busy refl refl refl refl
