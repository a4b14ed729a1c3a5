-- ===== src/Limiter/Registry.antt =====
-- limiter/limiter.go: the table of limiters by node tag. Limiters are shared by pointer (a
-- controller keeps the pointer that AddLimiter returned), so they stand in a store.
use v2b_z.Prelude.{ℕ, suc, List, [], Option, none, some, nat_eq}
use v2b_z.Prelude.Int.{ℤ}
use v2b_z.Prelude.Text.{Text, text_eq}
use v2b_z.Prelude.GoMap.{GoMap, lookup, insert, delete}
use v2b_z.Panel.{UserInfo}
use v2b_z.Limiter.Types.{Limiter}
use v2b_z.Limiter.Users.{new_limiter}

-- `objects` maps a pointer to its limiter, `limiter` is the global variable.
pub record Limiters : Type 0 where
  pub objects : GoMap ℕ Limiter
  pub next : ℕ
  pub limiter : GoMap Text ℕ

unfoldable pub init : Limiters
init = record { objects = []; next = 0; limiter = [] }

unfoldable pub add_limiter : Text → ℤ → List UserInfo → GoMap ℤ ℤ → Limiters → Limiters × ℕ
add_limiter tag speed_limit users alive_list g = (
  record {
    objects = insert g.next (new_limiter tag speed_limit users alive_list) g.objects;
    next = suc g.next;
    limiter = insert tag g.next g.limiter;
  },
  g.next,
)

unfoldable pub get_limiter : Text → Limiters → Option ℕ
get_limiter tag g = lookup tag g.limiter

unfoldable pub delete_limiter : Text → Limiters → Limiters
delete_limiter tag g = record g { limiter = delete tag g.limiter }

-- The limiter that a hook reaches under a tag.
unfoldable pub limiter_at : Text → Limiters → Option Limiter
unfolding get_limiter
limiter_at tag g = elim (get_limiter tag g) [ none ↦ none | some p ↦ lookup p g.objects ]

-- A write through a pointer.
unfoldable pub modify : ℕ → (Limiter → Limiter) → Limiters → Limiters
modify p f g = elim (lookup p g.objects) [
  | none ↦ g
  | some l ↦ record g { objects = insert p (f l) g.objects }
]
