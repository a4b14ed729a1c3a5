-- ===== src/Tests/Cores.antt =====
-- The users and the links of the cores, and the routing, on small inputs.
use v2b_z.Prelude.{
  ◌⊎◌, ◌≢◌, ℕ, suc, ◌≡◌, refl, Bool, true, false, not, ◌&&◌, ◌||◌, List, [], ◌∷◌, Option, none,
  some, ok, err, if◌then◌else◌, ◌==◌,
}
use v2b_z.Prelude.Int.{pos}
use v2b_z.Prelude.Text.{Text, text, text_eq, text_beq}
use v2b_z.Prelude.GoMap.{lookup, has, insert, delete}
use v2b_z.Limiter.Types.{user_tag}
use v2b_z.Core.Types.{Failure, message}
use v2b_z.Core.Hy2.{Hysteria2, authenticate}
use v2b_z.Core.Hy2
use v2b_z.Core.Hy2.Users.{is_among, authenticate-users}
use v2b_z.Core.Hy2.Quic.{ServerConfigQuic, QuicConfig, get_quic_config}
use v2b_z.Core.Hy2.Quic.Ranges.{IsConfigured, stream_window, get_quic_config_ranges}
use v2b_z.Core.Xray.Users.{Xray}
use v2b_z.Core.Xray.Users
use v2b_z.Core.Xray.Dispatcher.{LinkManager, pipe_reader, counter_reader}
use v2b_z.Core.Xray.Kick.{IsKicked, del_users-IsKicked}
use v2b_z.Core.Selector.{Selector, select_core, add_node}
use v2b_z.Core.Selector.Routing.{add_node-routes}
use v2b_z.Core.Selector.Choice.{IsChoice, named_core, select_core-IsChoice}
use v2b_z.Tests.Fixtures.{node, options, alice, bob, toy}

abbrev hysteria : Hysteria2
hysteria = record {
  hy2nodes =
      (text "n", record { tag = text "n"; counter = []; report_min_traffic_bytes = pos 0 }) ∷ [];
  users_map = [];
}

abbrev after_deletion : Hysteria2
after_deletion = record hysteria { users_map = (text "a", pos 7) ∷ [] }

authenticate-users_example : authenticate (text "a") after_deletion ≡ (
    if not (is_among (text "a") (bob ∷ []))
      && (is_among (text "a") (alice ∷ bob ∷ []) || has (text "a") hysteria.users_map)
    then (true, text "a")
    else (false, []))
unfolding v2b_z.Core.Hy2.add_users v2b_z.Core.Hy2.del_users lookup insert delete text_beq
authenticate-users_example =
    authenticate-users (text "a") (text "n") (alice ∷ bob ∷ []) (bob ∷ []) hysteria after_deletion
      refl

abbrev quic : ServerConfigQuic
quic = record {
  init_stream_receive_window = 65536;
  max_stream_receive_window = 0;
  init_connection_receive_window = 32768;
  max_connection_receive_window = 16384;
  max_idle_timeout = pos 0;
  max_incoming_streams = pos 8;
  disable_path_mtu_discovery = false;
}

abbrev quic_result : QuicConfig
quic_result = record {
  initial_stream_receive_window = 0;
  max_stream_receive_window = 8388608;
  initial_connection_receive_window = 32768;
  max_connection_receive_window = 16384;
  max_idle_timeout = pos 30000000000;
  max_incoming_streams = pos 8;
  disable_path_mtu_discovery = false;
}

get_quic_config_ranges_example : IsConfigured quic quic_result × (0 ≡ stream_window quic)
unfolding get_quic_config v2b_z.Core.Hy2.Quic.set_init_stream v2b_z.Core.Hy2.Quic.set_max_stream
    v2b_z.Core.Hy2.Quic.set_init_connection v2b_z.Core.Hy2.Quic.set_max_connection
    v2b_z.Core.Hy2.Quic.set_idle_timeout v2b_z.Core.Hy2.Quic.set_incoming_streams
get_quic_config_ranges_example = get_quic_config_ranges quic quic_result refl

-- A link of Dispatch and one of DispatchLink.
abbrev links : LinkManager
links = (1, pipe_reader 2) ∷ (3, counter_reader 4) ∷ []

abbrev xray : Xray
xray = record {
  uid_map = (user_tag (text "n") (text "a"), pos 7) ∷ [];
  dispatcher = record {
    counter = [];
    link_managers = (user_tag (text "n") (text "a"), links) ∷ [];
  };
  pipes = record { closed = []; interrupted = [] };
  node_report_min_traffic_bytes = [];
}

-- A user manager that accepts each removal, and counts them.
abbrev has_manager : Text → ℕ → Bool
has_manager tag m = true

abbrev remove : Text → Text → ℕ → ℕ × Option Failure
remove tag user m = (suc m, none)

del_users-IsKicked_example :
    IsKicked
      (user_tag (text "n") (text "a"))
      links
      (v2b_z.Core.Xray.Users.del_users has_manager remove (alice ∷ []) (text "n") (xray, 0)).0
unfolding v2b_z.Core.Xray.Users.del_users lookup text_beq user_tag
del_users-IsKicked_example =
    del_users-IsKicked has_manager remove (alice ∷ []) (text "n") (text "a") xray 0 links refl refl
      refl

abbrev selector : Selector (List Text)
selector = record { cores = (text "one", text "n" ∷ []) ∷ []; nodes = (text "n", text "one") ∷ [] }

add_node-routes_example :
    lookup
      (text "m")
      (add_node toy (λ raw o. some o) (λ raw. none) (text "m") node options selector).0.nodes
    ≡ elim (add_node toy (λ raw o. some o) (λ raw. none) (text "m") node options selector).2 [
      | ok _ ↦
          if text "m" == text "m"
          then select_core toy node options selector.cores
          else lookup (text "m") selector.nodes
      | err _ ↦ lookup (text "m") selector.nodes
    ]
add_node-routes_example =
    add_node-routes toy (λ raw o. some o) (λ raw. none) (text "m") (text "m") node options selector

select_core-IsChoice_example :
    ((options.core_name ≢ [])
      × (select_core toy node options selector.cores ≡ named_core options.core_name selector.cores))
    ⊎ ((options.core_name ≡ [])
        × IsChoice toy node options selector.cores (select_core toy node options selector.cores))
select_core-IsChoice_example = select_core-IsChoice toy node options selector.cores

abbrev emptied : Selector (List Text)
emptied = record { cores = (text "one", []) ∷ []; nodes = [] }

abbrev no_node : Failure
no_node = message (text "the node is not have")
