-- ===== src/Xray/Config.antt =====
-- `generateXrayConfig` of cmd/xray-controller/main.go. The maps of the configuration have fixed keys and
-- are records and constructors here; an outbound of a node is the map that the node carries.
pub mod Reached
pub mod Tags
pub mod Fallback
pub mod Named
use Prim.Native.String.{String}
use opn_box.Base.{
  ℕ, Bool, true, false, not, ◌&&◌, ◌||◌, Option, none, some, List, [], ◌∷◌, ◌++◌, Bytes, length,
  ◌==◌, if◌then◌else◌, bytes_eq,
}
use opn_box.Base.Dict.{Dict, lookup, put}
use opn_box.Base.Integers.{ℤ}
use opn_box.Text.{text}
use opn_box.Xray.{Node, CustomInbound, RoutingRule, AppData}

-- An inbound of a user: with a name and a password if both are given, and with sniffing or without.
pub record UserInbound : Type 0 where
  pub tag : Bytes
  pub port : ℤ
  pub listen : Bytes
  pub protocol : Bytes
  pub account : Option (Bytes × Bytes)
  pub sniffing : Bool

-- The inbound of the tunnel at port 10808, that for DNS at port 10853, and those of the user.
pub data Inbound : Type 0 where
  hev_socks_in dns_in : Inbound
  user : UserInbound → Inbound

-- The outbound that a node carries, and the fixed kinds with their tags.
pub data Outbound (V : Type 0) : Type 0 where
  carried : Dict V → Outbound V
  freedom blackhole dns : Bytes → Outbound V

-- What a rule applies to.
pub data Target : Type 0 where
  domain ip : List Bytes → Target
  unconditional tcp_and_udp from_dns_in : Target

pub record XrayRule : Type 0 where
  pub target : Target
  pub outbound_tag : Bytes

pub record XrayConfig (V : Type 0) : Type 0 where
  pub inbounds : List Inbound
  pub outbounds : List (Outbound V)
  pub domain_strategy : Bytes
  pub rules : List XrayRule

abbrev account_of : CustomInbound → Option (Bytes × Bytes)
account_of i =
    if not (length i.username == 0) && not (length i.password == 0)
    then some (i.username, i.password)
    else none

-- The loop over the inbounds of the user.
unfoldable pub user_inbounds : List CustomInbound → List Inbound
user_inbounds [] = []
user_inbounds (i ∷ is) =
    let rest = user_inbounds is in
    if i.enabled
    then user (record {
      tag = i.tag;
      port = i.port;
      listen = i.listen;
      protocol = i.protocol;
      account = account_of i;
      sniffing = i.sniffing;
    })
      ∷ rest
    else rest

abbrev pub proxy_default : Bytes
proxy_default = text "proxy-default"

abbrev pub target_of : RoutingRule → Target
target_of r =
    if bytes_eq r.kind (text "domain")
    then domain r.values
    else if bytes_eq r.kind (text "ip")
    then ip r.values
    else unconditional

abbrev pub tag_or_default : Bytes → Bytes
tag_or_default tag = if length tag == 0 then proxy_default else tag

-- `!r.Enabled || len(r.Values) == 0` skips a rule.
abbrev pub is_routed : RoutingRule → Bool
is_routed r = r.enabled && not (length r.values == 0)

-- The loop over the routing rules.
unfoldable pub user_rules : List RoutingRule → List XrayRule
user_rules [] = []
user_rules (r ∷ rs) =
    let rest = user_rules rs in
    if is_routed r
    then record { target = target_of r; outbound_tag = tag_or_default r.outbound_tag } ∷ rest
    else rest

abbrev pub member : Bytes → List Bytes → Bool
member tag [] = false
member tag (t ∷ ts) = bytes_eq t tag || member tag ts

module _ {V : Type 0} (str : Bytes → V) where
  -- The last node with a tag, as `nodeMap` keeps it.
  unfoldable pub node_map : List (Node V) → Dict (Node V) → Dict (Node V)
  node_map [] m = m
  node_map (n ∷ ns) m = node_map ns (put n.tag n m)

  abbrev pub outbound_of : Option (Node V) → Option (Dict V)
  outbound_of none = none
  outbound_of (some n) = n.raw_outbound

  abbrev default_outbound : Option (Dict V) → Outbound V
  default_outbound (some raw) = carried (put (text "tag") (str proxy_default) raw)
  default_outbound none = freedom proxy_default

  -- The test of a rule whose node is to be added.
  abbrev pub is_wanted : RoutingRule → List Bytes → Bool
  is_wanted r added =
      r.enabled
      && not (length r.outbound_tag == 0)
      && not (bytes_eq r.outbound_tag (text "direct"))
      && not (bytes_eq r.outbound_tag (text "block"))
      && not (bytes_eq r.outbound_tag proxy_default)
      && not (member r.outbound_tag added)

  abbrev pub found_for : Dict (Node V) → RoutingRule → Option (Dict V)
  found_for nodes r = outbound_of (lookup r.outbound_tag nodes)

  abbrev pub wanted : Bool → Option (Dict V) → Option (Dict V)
  wanted true found = found
  wanted false found = none

  abbrev extended : Bytes → Option (Dict V) → List Bytes → List Bytes
  extended tag (some raw) added = tag ∷ added
  extended tag none added = added

  abbrev with_outbound : Option (Dict V) → List (Outbound V) → List (Outbound V)
  with_outbound (some raw) rest = carried raw ∷ rest
  with_outbound none rest = rest

  -- The loop that adds the nodes that rules name; `added` is `addedTags`.
  unfoldable pub rule_outbounds : Dict (Node V) → List RoutingRule → List Bytes → List (Outbound V)
  rule_outbounds nodes [] added = []
  rule_outbounds nodes (r ∷ rs) added =
      let found = wanted (is_wanted r added) (found_for nodes r) in
      with_outbound found (rule_outbounds nodes rs (extended r.outbound_tag found added))

  unfoldable pub outbounds_of : AppData V → List (Outbound V)
  outbounds_of d =
      let nodes = node_map d.nodes [] in
      default_outbound (outbound_of (lookup d.active_node_tag nodes))
      ∷ (rule_outbounds nodes d.rules (proxy_default ∷ [])
          ++ (freedom (text "direct") ∷ blackhole (text "block") ∷ dns (text "dns-out") ∷ []))

  unfoldable pub rules_of : AppData V → List XrayRule
  rules_of d =
      record { target = from_dns_in; outbound_tag = text "dns-out" }
      ∷ (user_rules d.rules ++ record { target = tcp_and_udp; outbound_tag = proxy_default } ∷ [])

  -- `generateXrayConfig`; its error is always nil, and the parts `log` and `dns` are fixed.
  unfoldable pub generate_xray_config : AppData V → XrayConfig V
  generate_xray_config d = record {
    inbounds = hev_socks_in ∷ dns_in ∷ user_inbounds d.inbounds;
    outbounds = outbounds_of d;
    domain_strategy = if length d.domain_strategy == 0 then text "AsIs" else d.domain_strategy;
    rules = rules_of d;
  }
