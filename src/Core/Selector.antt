-- ===== src/Core/Selector.antt =====
-- core/selector.go and core/core.go: a core that routes each node to one of several cores. A core is
-- known by its name in the table; `ops` dispatches on its state.
pub mod Choice
pub mod Routing
use v2b_z.Prelude.{inl, inr, ◌⊎◌}
use v2b_z.Prelude.{
  ℕ, ◌≡◌, Bool, true, false, not, List, [], ◌∷◌, ◌++◌, Option, none, some, ◌==◌, if◌then◌else◌,
  is_empty, Result, ok, err,
}
use v2b_z.Prelude.Text.{Text, text, text_eq}
use v2b_z.Prelude.GoMap.{GoMap, lookup, insert, delete}
use v2b_z.Panel.{UserInfo, UserTraffic}
use v2b_z.Panel.Node.{NodeInfo}
use v2b_z.Conf.Options.{Options, unmarshal_json}
use v2b_z.Core.Types.{Core, Failure, message, AddUsersParams}

pub record Selector (S : Type 0) : Type 0 where
  pub cores : GoMap Text S
  pub nodes : GoMap Text Text

-- The parts of a core's configuration that the constructors of this file read.
pub record CoreConfig : Type 0 where
  pub type : Text
  pub name : Text

unfoldable pub is_supported : Text → List Text → Bool
is_supported protocol [] = false
is_supported protocol (p ∷ ps) =
    let rest = is_supported protocol ps in if protocol == p then true else rest

-- `registered` is the table that RegisterCore fills, `to_lower` is strings.ToLower.
module _ {S : Type 0} (registered : Text → Option (CoreConfig → Result Failure S))
    (to_lower : Text → Text) where
  unfoldable pub make_cores : List CoreConfig → GoMap Text S → Result Failure (GoMap Text S)
  make_cores [] cs = ok cs
  make_cores (t ∷ ts) cs = elim (registered (to_lower t.type)) [
    | none ↦ err (message (text "unknown core type: "))
    | some f ↦ elim (f t) [
      | err e ↦ err e
      | ok core ↦ make_cores ts (insert (if is_empty t.name then t.type else t.name) core cs)
    ]
  ]

  unfoldable pub new_selector : List CoreConfig → Result Failure (Selector S)
  unfolding make_cores
  new_selector c = elim (make_cores c []) [
    | err e ↦ err e
    | ok cs ↦ ok (record { cores = cs; nodes = [] })
  ]

module _ {S : Type 0} (ops : Core S) where
  -- The first error ends the loop of Start.
  unfoldable pub start_cores : GoMap Text S → GoMap Text S × Result Failure (Unit {0})
  start_cores [] = ([], ok tt)
  start_cores ((n, c) ∷ cs) =
      let (c', r) = ops.start c in
      let rest = start_cores cs in
      elim r [ err e ↦ ((n, c') ∷ cs, err e) | ok _ ↦ ((n, c') ∷ rest.0, rest.1) ]

  unfoldable pub start : Selector S → Selector S × Result Failure (Unit {0})
  unfolding start_cores
  start s = let (cs, r) = start_cores s.cores in (record s { cores = cs }, r)

  -- Close goes on after an error, and joins the errors.
  unfoldable pub close_cores : GoMap Text S → GoMap Text S × List Failure
  close_cores [] = ([], [])
  close_cores ((n, c) ∷ cs) =
      let (c', r) = ops.close c in
      let (cs', errs) = close_cores cs in
      elim r [ err e ↦ ((n, c') ∷ cs', e ∷ errs) | ok _ ↦ ((n, c') ∷ cs', errs) ]

  unfoldable pub close : Selector S → Selector S × List Failure
  unfolding close_cores
  close s = let (cs, errs) = close_cores s.cores in (record s { cores = cs }, errs)

  -- The test of the loop of AddNode; the last core that passes it is taken.
  unfoldable pub fits : NodeInfo → Options → S → Bool
  unfolding is_supported
  fits info option c =
      if is_empty option.core
      then is_supported info.type (ops.protocols c)
      else option.core == ops.type c

  unfoldable pub last_fit : NodeInfo → Options → GoMap Text S → Option Text → Option Text
  unfolding fits
  last_fit info option [] found = found
  last_fit info option ((n, c) ∷ cs) found =
      last_fit info option cs (if fits info option c then some n else found)

  unfoldable pub select_core : NodeInfo → Options → GoMap Text S → Option Text
  select_core info option cs =
      if not (is_empty option.core_name)
      then elim (lookup option.core_name cs) [ none ↦ none | some _ ↦ some option.core_name ]
      else last_fit info option cs none

  -- The call of a core and, if it succeeds, the entry of the node.
  unfoldable pub add_node_to :
      Text
      → S
      → Text
      → NodeInfo
      → Options
      → Selector S
      → Selector S × Options × Result Failure (Unit {0})
  add_node_to name c tag info option s =
      let (c', option', r) = ops.add_node tag info option c in
      elim r [
        | err e ↦ (record s { cores = insert name c' s.cores }, option', err e)
        | ok _ ↦ (
          record { cores = insert name c' s.cores; nodes = insert tag name s.nodes },
          option',
          ok tt,
        )
      ]

  -- `decode` and `core_error` are what UnmarshalJSON takes from encoding/json.
  unfoldable pub add_node :
      (Option Text → Options → Option Options)
      → (Option Text → Option Text)
      → Text
      → NodeInfo
      → Options
      → Selector S
      → Selector S × Options × Result Failure (Unit {0})
  add_node decode core_error tag info option s = elim (select_core info option s.cores) [
    | none ↦ (s, option, err (message (text "the node type is not support")))
    | some name ↦ elim (lookup name s.cores) [
      | none ↦ (s, option, err (message (text "the node type is not support")))
      | some c ↦
          if is_empty option.core
          then (let (option', failed) =
                unmarshal_json decode core_error option.raw_options
                  (record option { core = ops.type c }) in
              elim failed [
                | some e ↦ (s, option', err (message e))
                | none ↦ add_node_to name c tag info (record option' { raw_options = none }) s
              ])
          else add_node_to name c tag info option s
    ]
  ]

  -- The core of a node, with its name.
  unfoldable pub core_of : Text → Selector S → Option (Text × S)
  core_of tag s = elim (lookup tag s.nodes) [
    | none ↦ none
    | some name ↦ elim (lookup name s.cores) [ none ↦ none | some c ↦ some (name, c) ]
  ]

  abbrev no_node : Failure
  no_node = message (text "the node is not have")

  unfoldable pub del_node : Text → Selector S → Selector S × Result Failure (Unit {0})
  unfolding core_of
  del_node tag s = elim (core_of tag s) [
    | none ↦ (s, err no_node)
    | some (name, c) ↦
        let (c', r) = ops.del_node tag c in
        elim r [
          | err e ↦ (record s { cores = insert name c' s.cores }, err e)
          | ok _ ↦ (record { cores = insert name c' s.cores; nodes = delete tag s.nodes }, ok tt)
        ]
  ]

  unfoldable pub add_users : AddUsersParams → Selector S → Selector S × Result Failure ℕ
  unfolding core_of
  add_users p s = elim (core_of p.tag s) [
    | none ↦ (s, err no_node)
    | some (name, c) ↦
        let (c', r) = ops.add_users p c in (record s { cores = insert name c' s.cores }, r)
  ]

  unfoldable pub get_user_traffic_slice :
      Text → Bool → Selector S → Selector S × Result Failure (List UserTraffic)
  unfolding core_of
  get_user_traffic_slice tag reset s = elim (core_of tag s) [
    | none ↦ (s, err no_node)
    | some (name, c) ↦
        let (c', r) = ops.get_user_traffic_slice tag reset c in
        (record s { cores = insert name c' s.cores }, r)
  ]

  unfoldable pub del_users :
      List UserInfo → Text → NodeInfo → Selector S → Selector S × Result Failure (Unit {0})
  unfolding core_of
  del_users users tag info s = elim (core_of tag s) [
    | none ↦ (s, err no_node)
    | some (name, c) ↦
        let (c', r) = ops.del_users users tag info c in
        (record s { cores = insert name c' s.cores }, r)
  ]

  unfoldable pub protocols : GoMap Text S → List Text
  protocols [] = []
  protocols ((n, c) ∷ cs) = ops.protocols c ++ protocols cs

  abbrev core_label : Text → S → Text
  core_label n c = if is_empty n then ops.type c else n

  unfoldable pub labels : Bool → GoMap Text S → Text
  labels flag [] = []
  labels flag ((n, c) ∷ cs) =
      (if flag then b' ' ∷ core_label n c else core_label n c) ++ labels true cs

  unfoldable pub type : Selector S → Text
  unfolding labels
  type s = text "Selector(" ++ (labels false s.cores ++ text ")")

-- A selector is a core, too: NewCore makes one if more than one core is configured.
unfoldable pub new_core :
    {S : Type 0}
    → (Text → Option (CoreConfig → Result Failure S))
    → (Text → Text)
    → List CoreConfig
    → Result Failure (S ⊎ Selector S)
unfolding new_selector
new_core registered to_lower [] = err (message (text "no have vail core"))
new_core registered to_lower (c ∷ []) = elim (registered c.type) [
  | none ↦ err (message (text "unknown core type"))
  | some f ↦ elim (f c) [ err e ↦ err e | ok s ↦ ok (inl s) ]
]
new_core registered to_lower (c ∷ d ∷ cs) = elim (new_selector registered to_lower (c ∷ d ∷ cs)) [
  | err e ↦ err e
  | ok s ↦ ok (inr s)
]
