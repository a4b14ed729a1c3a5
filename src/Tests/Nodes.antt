-- ===== src/Tests/Nodes.antt =====
-- The users, the reports, the options and the controller of a node on small inputs.
use v2b_z.Prelude.{
  ℕ, ◌≡◌, ◌≢◌, ◌⊎◌, refl, Bool, true, false, not, ◌&&◌, ◌||◌, List, [], ◌∷◌, Option, none, some,
  Result, ok, err, if◌then◌else◌, ◌==◌, arith, length, Bool-cases, inl, inr,
}
use v2b_z.Prelude.Int.{ℤ, pos, int_eq}
use v2b_z.Prelude.Text.{Text, text, text_eq, text_beq}
use v2b_z.Prelude.GoMap.{GoMap, lookup, has, get_or}
use v2b_z.Panel.{UserTraffic, OnlineUser}
use v2b_z.Conf.{CertConfig, new_cert_config}
use v2b_z.Core.Types.{Failure, message}
use v2b_z.Limiter.Registry.{Limiters, add_limiter, init}
use v2b_z.Node.Users.{compare_user_list}
use v2b_z.Node.Users.Diff.{compare_user_list_lem, has_key, without_keys, compare-SameKeys}
use v2b_z.Node.Report.{online_report}
use v2b_z.Node.Report.Online.{online_report_lem, is_low, ips_of}
use v2b_z.Node.Controller.{World, Answers, crashed}
use v2b_z.Node.Controller.Reload.{reload_node}
use v2b_z.Node.Controller.Stranded.{reload-stranded}
use v2b_z.Node.Controller.Named.{known_users, reload-known_users}
use v2b_z.Task.{new_task}
use v2b_z.Tests.Fixtures.{node, options, alice, bob, toy, drop_node_lem}

compare_user_list_lem_example :
    ((k : Text)
      → has_key k (compare_user_list (alice ∷ []) (bob ∷ [])).0
        ≡ (has_key k (alice ∷ []) && not (has_key k (bob ∷ []))))
    × ((compare_user_list (alice ∷ []) (bob ∷ [])).1 ≡ without_keys (alice ∷ []) (bob ∷ []))
compare_user_list_lem_example = compare_user_list_lem (alice ∷ []) (bob ∷ []) (refl, tt)

-- The device limit of a user changes from 1 to 3.
compare-SameKeys_example :
    ((compare_user_list (alice ∷ []) (record alice { device_limit = pos 3 } ∷ [])).0 ≡ [])
    × ((compare_user_list (alice ∷ []) (record alice { device_limit = pos 3 } ∷ [])).1 ≡ [])
compare-SameKeys_example =
    compare-SameKeys (alice ∷ []) (record alice { device_limit = pos 3 } ∷ []) (refl, tt)
      (refl, refl, tt)

abbrev panel_cert : CertConfig
panel_cert = record new_cert_config { cert_mode = text "self"; cert_domain = text "d" }

abbrev online : List OnlineUser
online =
    record { uid = pos 7; ip = text "10.0.0.1" } ∷ record { uid = pos 8; ip = text "10.0.0.2" } ∷ []

-- The first user is below the minimum, the second has no traffic at all.
abbrev traffic : List UserTraffic
traffic = record { uid = pos 7; upload = pos 1; download = pos 1 } ∷ []

online_report_lem_example :
    get_or [] (pos 8) ((pos 8, text "10.0.0.2" ∷ []) ∷ [])
    ≡ (if is_low (pos 1) (pos 8) traffic then [] else ips_of (pos 8) online)
unfolding online_report has v2b_z.Prelude.Int.add64 v2b_z.Prelude.Int.mul64
    v2b_z.Prelude.GoMap.insert get_or
online_report_lem_example =
    online_report_lem (pos 1) (pos 8) traffic online ((pos 8, text "10.0.0.2" ∷ []) ∷ []) refl

abbrev limiters : Limiters
limiters = (add_limiter (text "n") (pos 0) (alice ∷ []) [] init).0

abbrev world : World (List Text)
world = record {
  controller = record {
    api_host = text "h";
    options = options;
    tag = text "n";
    limiter = 0;
    traffic = [];
    user_list = alice ∷ [];
    info = node;
    active_options = options;
    node_info_monitor = record { interval = pos 30; task = new_task };
    user_report = record { interval = pos 60; task = new_task };
  };
  server = text "n" ∷ [];
  limiters = limiters;
}

abbrev answers : Answers
answers = record {
  node = ok (some node);
  users = ok none;
  alive = ok none;
  cert = some (message (text "acme"));
}

toy-twice :
    (t : Text) (s : List Text)
    → (toy.del_node t s).1 ≡ ok tt
    → (f : Failure) × ((toy.del_node t (toy.del_node t s).0).1 ≡ err f)
toy-twice t s h = (message (text "no node"), ground (arith, drop_node_lem t s))

reload-stranded_example :
    (reload_node toy
      (λ r. true)
      (λ s. s)
      node
      none
      none
      answers
      (reload_node toy (λ r. true) (λ s. s) node (some (bob ∷ [])) none answers world).0).1
    ≡ crashed
unfolding text_beq
reload-stranded_example =
    reload-stranded toy (λ r. true) (λ s. s) node node (some (bob ∷ [])) none none none answers
      answers (message (text "acme")) world toy-twice refl refl refl refl

reload-known_users_example :
    known_users 0
      (reload_node toy (λ r. true) (λ s. s) node (some (bob ∷ [])) none answers world).0.limiters
    ≡ known_users 0 limiters
reload-known_users_example =
    reload-known_users toy (λ r. true) (λ s. s) 0 node (some (bob ∷ [])) none answers world refl
