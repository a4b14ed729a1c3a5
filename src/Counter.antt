-- ===== src/Counter.antt =====
-- common/counter/traffic.go, xraytraffic.go and conn.go: the traffic of each user, in bytes.
-- An atomic int64 wraps to 64 bits when it is added to.
pub mod Conn
pub mod Slice
use v2b_z.Prelude.{ℕ, ◌≡◌, ◌+◌, refl, ap, List, [], ◌∷◌, Option, none, some, length}
use v2b_z.Prelude.Int.{ℤ, pos, add64}
use v2b_z.Prelude.Text.{Text, text_eq}
use v2b_z.Prelude.GoMap.{GoMap, lookup, insert, delete}

pub record TrafficStorage : Type 0 where
  pub up_counter : ℤ
  pub down_counter : ℤ

-- The counters are reached by pointer; each pointer stands in one entry.
abbrev pub TrafficCounter : Type 0
TrafficCounter = GoMap Text TrafficStorage

abbrev pub zero_storage : TrafficStorage
zero_storage = record { up_counter = pos 0; down_counter = pos 0 }

unfoldable pub new_traffic_counter : TrafficCounter
new_traffic_counter = []

-- The storage of a user, which is made if there is none.
unfoldable pub get_counter : Text → TrafficCounter → TrafficCounter × TrafficStorage
get_counter uuid c = elim (lookup uuid c) [
  | some s ↦ (c, s)
  | none ↦ (insert uuid zero_storage c, zero_storage)
]

unfoldable pub get_up_count : Text → TrafficCounter → ℤ
get_up_count uuid c = elim (lookup uuid c) [ some s ↦ s.up_counter | none ↦ pos 0 ]

unfoldable pub get_down_count : Text → TrafficCounter → ℤ
get_down_count uuid c = elim (lookup uuid c) [ some s ↦ s.down_counter | none ↦ pos 0 ]

unfoldable pub len : TrafficCounter → ℕ
len c = length c

unfoldable pub reset : Text → TrafficCounter → TrafficCounter
reset uuid c = elim (lookup uuid c) [ some s ↦ insert uuid zero_storage c | none ↦ c ]

unfoldable pub delete_user : Text → TrafficCounter → TrafficCounter
delete_user uuid c = delete uuid c

unfoldable pub rx : Text → ℤ → TrafficCounter → TrafficCounter
unfolding get_counter
rx uuid n c =
    let (c', s) = get_counter uuid c in
    insert uuid (record s { down_counter = add64 s.down_counter n }) c'

unfoldable pub tx : Text → ℤ → TrafficCounter → TrafficCounter
unfolding get_counter
tx uuid n c =
    let (c', s) = get_counter uuid c in
    insert uuid (record s { up_counter = add64 s.up_counter n }) c'

-- XrayTrafficCounter: the value before a Set, and the value after an Add.
unfoldable pub value : ℤ → ℤ
value v = v

unfoldable pub swap : ℤ → ℤ → ℤ × ℤ
swap new v = (new, v)

unfoldable pub add : ℤ → ℤ → ℤ × ℤ
add delta v = let sum = add64 v delta in (sum, sum)
