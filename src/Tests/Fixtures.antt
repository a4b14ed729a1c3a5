-- ===== src/Tests/Fixtures.antt =====
-- Values that the tests share: a node of each kind that they need, options, users, and a core whose
-- state is the list of the tags of its nodes.
use v2b_z.Prelude.{
  ◌≡◌, refl, arith, Bool, false, List, [], ◌∷◌, none, ok, err, length, ◌==◌, ◌||◌, if◌then◌else◌,
}
use v2b_z.Prelude.Int.{pos}
use v2b_z.Prelude.Text.{Text, text, text_eq}
use v2b_z.Panel.{UserInfo}
use v2b_z.Panel.Node.{NodeInfo}
use v2b_z.Conf.Options.{Options}
use v2b_z.Core.Types.{Core, message}

abbrev pub node : NodeInfo
node = record {
  id = pos 1;
  type = text "trojan";
  security = pos 1;
  push_interval = pos 60;
  pull_interval = pos 30;
  raw_dns = record { dns_map = []; dns_json = [] };
  rules = record { regexp = []; protocol = [] };
  vallss = none;
  shadowsocks = none;
  trojan = none;
  tuic = none;
  any_tls = none;
  hysteria = none;
  hysteria2 = none;
  common = none;
  panel_cert_config = none;
  panel_cert_self_fallback_set = false;
  panel_cert_reject_unknown_sni_set = false;
}

abbrev pub options : Options
options = record {
  name = text "n";
  core = text "toy";
  core_name = [];
  listen_ip = [];
  send_ip = [];
  device_online_min_traffic = pos 1;
  report_min_traffic = pos 0;
  limit_config = record {
    enable_realtime = false;
    speed_limit = pos 0;
    ip_limit = pos 0;
    conn_limit = pos 0;
    enable_ip_recorder = false;
    enable_dynamic_speed_limit = false;
    dynamic_speed_limit_config = none;
  };
  raw_options = none;
  xray_options = none;
  sing_options = none;
  hysteria2_config_path = [];
  cert_config = none;
}

abbrev pub alice : UserInfo
alice = record { id = pos 7; uuid = text "a"; speed_limit = pos 10; device_limit = pos 1 }

abbrev pub bob : UserInfo
bob = record { id = pos 8; uuid = text "b"; speed_limit = pos 0; device_limit = pos 2 }

abbrev pub is_node : Text → List Text → Bool
is_node tag [] = false
is_node tag (t ∷ ts) = t == tag || is_node tag ts

abbrev pub drop_node : Text → List Text → List Text
drop_node tag [] = []
drop_node tag (t ∷ ts) = if t == tag then drop_node tag ts else t ∷ drop_node tag ts

-- What is deleted is gone.
pub drop_node_lem : (t : Text) (s : List Text) → is_node t (drop_node t s) ≡ false
drop_node_lem t [] = refl
drop_node_lem t (u ∷ s) = ground (arith, drop_node_lem t s)

-- It refuses to delete a node that it does not have.
abbrev pub toy : Core (List Text)
toy = record {
  start = λ s. (s, ok tt);
  close = λ s. (s, ok tt);
  add_node = λ tag n o s. (tag ∷ s, o, ok tt);
  del_node = λ tag s.
      if is_node tag s then (drop_node tag s, ok tt) else (s, err (message (text "no node")));
  add_users = λ p s. (s, ok (length p.users));
  get_user_traffic_slice = λ tag reset s. (s, ok []);
  del_users = λ us tag n s. (s, ok tt);
  protocols = λ s. text "trojan" ∷ [];
  type = λ s. text "toy";
}
