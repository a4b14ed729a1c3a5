-- ===== src/Panel/Finish/Protocol.antt =====
-- api/panel/node.go: which parts of a NodeInfo an answer of the panel fills.
use mathlib.Core.Path.{subst}
use v2b_z.Prelude.{
  ◌≡◌, Result-cases, inl, inr, refl, ◌∙◌, Bool, true, false, Option, none, some, Result, ok, err,
  ◌||◌, ◌==◌, if◌then◌else◌,
}
use v2b_z.Prelude.Int.{ℤ}
use v2b_z.Prelude.Text.{Text, text, text_eq}
use v2b_z.Prelude.GoMap.{GoMap}
use v2b_z.Panel.Node.{
  NodeInfo, VAllssNode, TrojanNode, ShadowsocksNode, TuicNode, AnyTlsNode, HysteriaNode,
  Hysteria2Node,
}
use v2b_z.Panel.Decode.{
  panicked, Decoded, blank_node, Decoders, decode_protocol, Parts, ClientError, take_vallss,
  take_shadowsocks, take_trojan, take_tuic, take_any_tls, take_hysteria, take_hysteria2, take,
}
use v2b_z.Panel.Finish.{intervals, settle_node, finish_node, read_node}

abbrev is_some {ℓ} : {A : Type ℓ} → Option A → Bool
is_some none = false
is_some (some a) = true

-- The node has the part that the code of its type reads.
unfoldable pub has_part : Text → NodeInfo → Bool
has_part t node =
    if t == text "vmess" || t == text "vless"
    then is_some node.vallss
    else if t == text "shadowsocks"
    then is_some node.shadowsocks
    else if t == text "trojan"
    then is_some node.trojan
    else if t == text "tuic"
    then is_some node.tuic
    else if t == text "anytls"
    then is_some node.any_tls
    else if t == text "hysteria"
    then is_some node.hysteria
    else is_some node.hysteria2

take-ok :
    {N : Type 0} (f : Decoded N → Parts) (Q : Parts → Type 0)
    → ((d : Decoded N) → Q (f d))
    → (o : Option (Decoded N)) (what : Text) (p : Parts) → take f o what ≡ ok p
    → Q p
unfolding take
take-ok f Q all none what p h = absurd (cc)
take-ok f Q all (some d) what p h = subst Q (cc) (all d)

-- The type and the number that the node was asked for.
abbrev pub IsFor : ℤ → Text → NodeInfo → Type 0
IsFor node_id t node = (node.type ≡ t) × (node.id ≡ node_id)

-- The given part is there, in a node of the given type and number.
abbrev Filled : {A : Type 0} → (NodeInfo → Option A) → ℤ → Text → Parts → Type 0
Filled part node_id t p = (is_some (part p.0) ≡ true) × IsFor node_id t p.0

-- A test that a result and a flag share, and one without a result otherwise.
module _ (C : Type 0) (p : Parts) where
  choose :
      (a c : Bool) (x y : Result ClientError Parts) (b : Bool)
      → (x ≡ ok p → (a ≡ true) × C)
      → (y ≡ ok p → (c ≡ true) × C)
      → (if b then x else y) ≡ ok p
      → ((if b then a else c) ≡ true) × C
  choose a c x y true f g h = f h
  choose a c x y false f g h = g h

  or_error :
      (a : Bool) (x : Result ClientError Parts) (e : ClientError) (b : Bool)
      → (x ≡ ok p → (a ≡ true) × C)
      → (if b then x else err e) ≡ ok p
      → (a ≡ true) × C
  or_error a x e true f h = f h
  or_error a x e false f h = absurd (cc)

take_shadowsocks-Filled :
    (node_id : ℤ) (t : Text) (d : Decoded ShadowsocksNode)
    → Filled (λ n. n.shadowsocks) node_id t (take_shadowsocks (blank_node node_id t) d)
unfolding take_shadowsocks
take_shadowsocks-Filled node_id t d = (refl, (refl, refl))

take_tuic-Filled :
    (node_id : ℤ) (t : Text) (d : Decoded TuicNode)
    → Filled (λ n. n.tuic) node_id t (take_tuic (blank_node node_id t) d)
unfolding take_tuic
take_tuic-Filled node_id t d = (refl, (refl, refl))

take_any_tls-Filled :
    (node_id : ℤ) (t : Text) (d : Decoded AnyTlsNode)
    → Filled (λ n. n.any_tls) node_id t (take_any_tls (blank_node node_id t) d)
unfolding take_any_tls
take_any_tls-Filled node_id t d = (refl, (refl, refl))

take_hysteria-Filled :
    (node_id : ℤ) (t : Text) (d : Decoded HysteriaNode)
    → Filled (λ n. n.hysteria) node_id t (take_hysteria (blank_node node_id t) d)
unfolding take_hysteria
take_hysteria-Filled node_id t d = (refl, (refl, refl))

take_hysteria2-Filled :
    (node_id : ℤ) (t : Text) (d : Decoded Hysteria2Node)
    → Filled (λ n. n.hysteria2) node_id t (take_hysteria2 (blank_node node_id t) d)
unfolding take_hysteria2
take_hysteria2-Filled node_id t d = (refl, (refl, refl))

module _ (trim_space : Text → Text) (decoders : Decoders) where
  take_vallss-Filled :
      (node_id : ℤ) (t : Text) (d : Decoded VAllssNode)
      → Filled (λ n. n.vallss) node_id t (take_vallss trim_space (blank_node node_id t) d)
  unfolding take_vallss
  take_vallss-Filled node_id t d = (refl, (refl, refl))

  take_trojan-Filled :
      (node_id : ℤ) (t : Text) (d : Decoded TrojanNode)
      → Filled (λ n. n.trojan) node_id t (take_trojan trim_space (blank_node node_id t) d)
  unfolding take_trojan
  take_trojan-Filled node_id t d = (refl, (refl, refl))

  decode_protocol-part :
      (node_id : ℤ) (t body : Text) (p : Parts)
      → decode_protocol trim_space decoders node_id t body ≡ ok p
      → (has_part t p.0 ≡ true) × IsFor node_id t p.0
  unfolding decode_protocol has_part
  decode_protocol-part node_id t body p h =
      let node = blank_node node_id t in
      let v =
        take-ok (take_vallss trim_space node) (Filled (λ n. n.vallss) node_id t)
          (take_vallss-Filled node_id t) (decoders.vallss body) (text "v2ray") p in
      let s =
        take-ok (take_shadowsocks node) (Filled (λ n. n.shadowsocks) node_id t)
          (take_shadowsocks-Filled node_id t) (decoders.shadowsocks body) t p in
      let r =
        take-ok (take_trojan trim_space node) (Filled (λ n. n.trojan) node_id t)
          (take_trojan-Filled node_id t) (decoders.trojan body) t p in
      let u =
        take-ok (take_tuic node) (Filled (λ n. n.tuic) node_id t) (take_tuic-Filled node_id t)
          (decoders.tuic body) t p in
      let a =
        take-ok (take_any_tls node) (Filled (λ n. n.any_tls) node_id t)
          (take_any_tls-Filled node_id t) (decoders.any_tls body) t p in
      let y =
        take-ok (take_hysteria node) (Filled (λ n. n.hysteria) node_id t)
          (take_hysteria-Filled node_id t) (decoders.hysteria body) t p in
      let z =
        take-ok (take_hysteria2 node) (Filled (λ n. n.hysteria2) node_id t)
          (take_hysteria2-Filled node_id t) (decoders.hysteria2 body) t p in
      let C : Type 0 = IsFor node_id t p.0 in
      choose C p (is_some p.0.vallss) _ _ _ (t == text "vmess" || t == text "vless") v
        (choose C p (is_some p.0.shadowsocks) _ _ _ (t == text "shadowsocks") s (
          choose C p (is_some p.0.trojan) _ _ _ (t == text "trojan") r (
            choose C p (is_some p.0.tuic) _ _ _ (t == text "tuic") u (
              choose C p (is_some p.0.any_tls) _ _ _ (t == text "anytls") a (
                choose C p (is_some p.0.hysteria) _ _ _ (t == text "hysteria") y
                  (or_error C p (is_some p.0.hysteria2) _ _ (t == text "hysteria2") z))))))
        h

settled :
    (o : Option (ℤ × ℤ)) (f : ℤ × ℤ → NodeInfo) (node : NodeInfo)
    → elim o as (λ _. Result ClientError NodeInfo) [ none ↦ err panicked | some i ↦ ok (f i) ]
      ≡ ok node
    → (i : ℤ × ℤ) × (f i ≡ node)
settled none f node h = absurd (cc)
settled (some i) f node h = (i, cc)

module _ (trim_space : Text → Text) (atoi : Text → ℤ)
    (decode_env : Text → Option (GoMap Text Text)) where
  finish_node-keeps :
      (node_id : ℤ) (t : Text) (p : Parts) (node : NodeInfo)
      → finish_node atoi trim_space decode_env node_id p ≡ ok node
      → (has_part t node ≡ has_part t p.0) × IsFor p.0.id p.0.type node
  unfolding finish_node has_part settle_node
  finish_node-keeps node_id t p node h =
      let (i, e) =
        settled (intervals atoi p.3) (settle_node atoi trim_space decode_env node_id p) node h in
      subst (λ n. (has_part t n ≡ has_part t p.0) × IsFor p.0.id p.0.type n) e (refl, (refl, refl))

-- A node that the panel's answer was read into has the type and the number that it was asked for,
-- and the part that the code for this type reads.
pub read_node-part :
    (trim_space : Text → Text) (atoi : Text → ℤ) (decode_env : Text → Option (GoMap Text Text))
    (decoders : Decoders) (node_id : ℤ) (t body : Text) (node : NodeInfo)
    → read_node trim_space atoi decode_env decoders node_id t body ≡ ok node
    → (has_part t node ≡ true) × IsFor node_id t node
unfolding read_node
read_node-part trim_space atoi decode_env decoders node_id t body node h =
    elim (Result-cases (decode_protocol trim_space decoders node_id t body)) [
      | inl (p, e) ↦
          let h' = rw e at h in
          let (part, (type, id)) =
            finish_node-keeps trim_space atoi decode_env node_id t p node h' in
          let (had, (had_type, had_id)) =
            decode_protocol-part trim_space decoders node_id t body p e in
          (part ∙ had, (type ∙ had_type, id ∙ had_id))
      | inr (x, e) ↦ let h' = rw e at h in absurd (cc)
    ]
