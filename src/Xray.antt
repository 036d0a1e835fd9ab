-- ===== src/Xray.antt =====
-- cmd/xray-controller/main.go: the web service that keeps nodes, subscriptions, inbounds and rules for
-- xray. `V` is the type of the JSON values in a node's outbound, with `str` for a text.
pub mod Json
pub mod Links
pub mod Store
pub mod Config
pub mod Handlers
use Prim.Native.String.{String}
use opn_box.Base.{
  ℕ, ◌+◌, Bool, true, false, not, ◌&&◌, ◌||◌, Option, none, some, List, [], ◌∷◌, ◌++◌, Bytes,
  length, ◌==◌, if◌then◌else◌, bytes_eq,
}
use opn_box.Base.Dict.{Dict, lookup}
use opn_box.Base.Integers.{ℤ, pos}
use opn_box.Text.{text}

pub record Subscription : Type 0 where
  pub id : Bytes
  pub name : Bytes
  pub url : Bytes
  pub last_update : ℕ
  pub node_count : ℕ

-- `NodeConfig`; a nil outbound is `none`.
pub record Node (V : Type 0) : Type 0 where
  pub id : Bytes
  pub tag : Bytes
  pub name : Bytes
  pub protocol : Bytes
  pub address : Bytes
  pub port : ℤ
  pub network : Bytes
  pub security : Bytes
  pub sni : Bytes
  pub path : Bytes
  pub xhttp_mode : Bytes
  pub sub_id : Bytes
  pub ping_rtt : ℤ
  pub raw_outbound : Option (Dict V)

pub record CustomInbound : Type 0 where
  pub id : Bytes
  pub tag : Bytes
  pub protocol : Bytes
  pub listen : Bytes
  pub port : ℤ
  pub enabled : Bool
  pub sniffing : Bool
  pub username : Bytes
  pub password : Bytes
  pub comment : Bytes

-- `RoutingRule`; `kind` is the field `Type`.
pub record RoutingRule : Type 0 where
  pub id : Bytes
  pub kind : Bytes
  pub values : List Bytes
  pub outbound_tag : Bytes
  pub enabled : Bool
  pub comment : Bytes

pub record AppData (V : Type 0) : Type 0 where
  pub active_node_tag : Bytes
  pub subscriptions : List Subscription
  pub nodes : List (Node V)
  pub inbounds : List CustomInbound
  pub rules : List RoutingRule
  pub domain_strategy : Bytes

abbrev lan_inbound : Bytes → Bytes → Bytes → ℕ → Bytes → CustomInbound
lan_inbound id tag protocol port comment = record {
  id = id;
  tag = tag;
  protocol = protocol;
  listen = text "0.0.0.0";
  port = pos port;
  enabled = false;
  sniffing = true;
  username = [];
  password = [];
  comment = comment;
}

abbrev default_rule : Bytes → List Bytes → Bytes → Bytes → RoutingRule
default_rule id values outbound_tag comment = record {
  id = id;
  kind = text "domain";
  values = values;
  outbound_tag = outbound_tag;
  enabled = true;
  comment = comment;
}

-- The state where there is no data file.
abbrev pub default_data : {V : Type 0} → AppData V
default_data = record {
  active_node_tag = [];
  subscriptions = [];
  nodes = [];
  inbounds =
      lan_inbound (text "in-lan-mixed") (text "lan-mixed") (text "socks") 10809
        (text "局域网终端专用代理 (SOCKS5)")
      ∷ lan_inbound (text "in-lan-http") (text "lan-http") (text "http") 10810
          (text "局域网终端专用代理 (HTTP)")
      ∷ [];
  rules =
      default_rule (text "rule-ai")
        (text "geosite:openai" ∷ text "geosite:anthropic" ∷ text "domain:claude.ai" ∷ [])
        (text "proxy-default") (text "AI 专用分流 (OpenAI / Claude)")
      ∷ default_rule (text "rule-media") (text "geosite:netflix" ∷ text "geosite:disney" ∷ [])
          (text "proxy-default") (text "海外流媒体")
      ∷ default_rule (text "rule-direct") (text "geosite:cn" ∷ []) (text "direct")
          (text "国内域名直连 (可选)")
      ∷ [];
  domain_strategy = text "AsIs";
}

abbrev pub find_subscription : List Subscription → Bytes → Option Subscription
find_subscription [] id = none
find_subscription (s ∷ ss) id = if bytes_eq s.id id then some s else find_subscription ss id

-- The change of the subscription that was found, the first with its id.
unfoldable pub touch : Bytes → ℕ → ℕ → List Subscription → List Subscription
touch id now count [] = []
touch id now count (s ∷ ss) =
    let rest = touch id now count ss in
    if bytes_eq s.id id then record s { last_update = now; node_count = count } ∷ ss else s ∷ rest

unfoldable pub subscriptions_without : Bytes → List Subscription → List Subscription
subscriptions_without id [] = []
subscriptions_without id (s ∷ ss) =
    let kept = subscriptions_without id ss in if bytes_eq s.id id then kept else s ∷ kept

module _ {V : Type 0} where
  -- The first node's tag where no node is active.
  abbrev pub or_first : Bytes → List (Node V) → Bytes
  or_first [] [] = []
  or_first [] (n ∷ ns) = n.tag
  or_first (b ∷ tag) ns = b ∷ tag

  -- The end of an addition of nodes.
  unfoldable pub with_nodes : AppData V → List (Node V) → AppData V
  with_nodes d nodes = record d {
    nodes = nodes;
    active_node_tag = or_first d.active_node_tag nodes;
  }

  -- What `handleAddSubscription` makes of the data.
  unfoldable pub add_subscription : AppData V → Subscription → List (Node V) → AppData V
  unfolding with_nodes
  add_subscription d sub nodes =
      with_nodes (record d { subscriptions = d.subscriptions ++ sub ∷ [] }) (d.nodes ++ nodes)

  -- The loops that keep the nodes of other subscriptions.
  unfoldable pub nodes_without : Bytes → List (Node V) → List (Node V)
  nodes_without id [] = []
  nodes_without id (n ∷ ns) =
      let kept = nodes_without id ns in if bytes_eq n.sub_id id then kept else n ∷ kept

  -- What `handleUpdateSubscription` makes of the data.
  unfoldable pub update_subscription : AppData V → Bytes → ℕ → List (Node V) → AppData V
  unfolding nodes_without touch
  update_subscription d id now new_nodes = record d {
    nodes = nodes_without id d.nodes ++ new_nodes;
    subscriptions = touch id now (length new_nodes) d.subscriptions;
  }

  -- What `handleDeleteSubscription` makes of the data.
  unfoldable pub delete_subscription : AppData V → Bytes → AppData V
  unfolding nodes_without subscriptions_without
  delete_subscription d id = record d {
    subscriptions = subscriptions_without id d.subscriptions;
    nodes = nodes_without id d.nodes;
  }

  unfoldable pub untagged : Bytes → List (Node V) → List (Node V)
  untagged tag [] = []
  untagged tag (n ∷ ns) =
      let kept = untagged tag ns in if bytes_eq n.tag tag then kept else n ∷ kept

  -- What `handleDeleteNode` makes of the data.
  unfoldable pub delete_node : AppData V → Bytes → AppData V
  unfolding untagged
  delete_node d tag =
      let kept = untagged tag d.nodes in
      record d {
        nodes = kept;
        active_node_tag =
            if bytes_eq d.active_node_tag tag then or_first [] kept else d.active_node_tag;
      }

  -- `handleSetActiveNode`, `handleSaveInbounds` and `handleSaveRouting`
  abbrev pub set_active : AppData V → Bytes → AppData V
  set_active d tag = record d { active_node_tag = tag }

  abbrev pub save_inbounds : AppData V → List CustomInbound → AppData V
  save_inbounds d inbounds = record d { inbounds = inbounds }

  abbrev pub save_routing : AppData V → Bytes → List RoutingRule → AppData V
  save_routing d strategy rules = record d {
    rules = rules;
    domain_strategy = if length strategy == 0 then d.domain_strategy else strategy;
  }

  abbrev pub with_ping : Node V → Option ℤ → Node V
  with_ping n (some rtt) = record n { ping_rtt = rtt }
  with_ping n none = n

  -- The loop of `handlePingNodes` over the results by tag.
  unfoldable pub pinged : Dict ℤ → List (Node V) → List (Node V)
  pinged results [] = []
  pinged results (n ∷ ns) = with_ping n (lookup n.tag results) ∷ pinged results ns
