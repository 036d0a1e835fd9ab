-- ===== src/Xray/Links/Carried.antt =====
-- The parsers of node links of cmd/xray-controller/main.go: what every parsed node carries.
use opn_box.Base.{
  ℕ, ◌≡◌, refl, sym, Bool, true, false, Option, none, some, Bytes, if◌then◌else◌, bytes_eq,
}
use opn_box.Base.Dict.{Dict, lookup}
use opn_box.Text.{text, has_prefix, trim_space}
use opn_box.Xray.{Node}
use opn_box.Xray.Json.{Json, string, Value}
use opn_box.Xray.Links.Build.{new_tag}
use opn_box.Xray.Links.{
  Library, Url, vless_at, vless_of, parse_vless, vmess_from, parse_vmess, trojan_at, trojan_of,
  parse_trojan, shadowsocks_at, shadowsocks_of, parse_shadowsocks, parse_node_uri,
}

abbrev pub Every {ℓ κ} : {A : Type ℓ} → (A → Type κ) → Option A → Type κ
Every P none = Unit
Every P (some a) = P a

if-Every {ℓ κ} :
    {A : Type ℓ} (P : A → Type κ) (b : Bool) (x y : Option A)
    → Every P x
    → Every P y
    → Every P (if b then x else y)
if-Every P true x y hx hy = hx
if-Every P false x y hx hy = hy

pub of_some {ℓ κ} :
    {A : Type ℓ} (P : A → Type κ) (o : Option A) (a : A) → Every P o → o ≡ some a → P a
of_some P none a h e = absurd cc
of_some P (some b) a h e = let same : b ≡ a = cc in rw (sym same) h

-- The node's outbound has the node's tag.
abbrev pub IsCarrying : Node Json → Type 0
IsCarrying n =
    (raw : Dict Json) × (n.raw_outbound ≡ some raw)
    × (lookup (text "tag") raw ≡ some (string n.tag))

module _ (lib : Library) (now : ℕ) (sub : Bytes) where
  -- A node of the subscription with the tag of the time, whose outbound has its tag and protocol.
  abbrev pub IsBuilt : Node Json → Type 0
  IsBuilt n =
      (n.tag ≡ new_tag now)
      × (n.id ≡ n.tag)
      × (n.sub_id ≡ sub)
      × (raw : Dict Json) × (n.raw_outbound ≡ some raw)
      × (lookup (text "tag") raw ≡ some (string n.tag))
      × (lookup (text "protocol") raw ≡ some (string n.protocol))

  vless-IsBuilt : (u : Option Url) → Every IsBuilt (vless_of lib now sub u)
  unfolding lookup bytes_eq
  vless-IsBuilt none = tt
  vless-IsBuilt (some u) = at u (lib.split_host_port u.host)
    where
      at : (u : Url) (parts : Option (Bytes × Bytes)) → Every IsBuilt (vless_at lib now sub u parts)
      at u none = tt
      at u (some (host, port)) = (refl, refl, refl, _, refl, refl, refl)

  vmess-IsBuilt : (v : Option (Dict Value)) → Every IsBuilt (vmess_from lib now sub v)
  unfolding lookup bytes_eq
  vmess-IsBuilt none = tt
  vmess-IsBuilt (some v) = (refl, refl, refl, _, refl, refl, refl)

  trojan-IsBuilt : (u : Option Url) → Every IsBuilt (trojan_of lib now sub u)
  unfolding lookup bytes_eq
  trojan-IsBuilt none = tt
  trojan-IsBuilt (some u) = at u (lib.split_host_port u.host)
    where
      at :
          (u : Url) (parts : Option (Bytes × Bytes)) → Every IsBuilt (trojan_at lib now sub u parts)
      at u none = tt
      at u (some (host, port)) = (refl, refl, refl, _, refl, refl, refl)

  shadowsocks-IsBuilt : (u : Option Url) → Every IsBuilt (shadowsocks_of lib now sub u)
  unfolding lookup bytes_eq
  shadowsocks-IsBuilt none = tt
  shadowsocks-IsBuilt (some u) = at u (lib.split_host_port u.host)
    where
      at :
          (u : Url) (parts : Option (Bytes × Bytes))
          → Every IsBuilt (shadowsocks_at lib now sub u parts)
      at u none = tt
      at u (some (host, port)) = (refl, refl, refl, _, refl, refl, refl)

  parsed-Every : (link : Bytes) → Every IsBuilt (parse_node_uri lib now sub link)
  unfolding parse_node_uri parse_vless parse_vmess parse_trojan parse_shadowsocks
  parsed-Every link =
      let raw = trim_space link in
      if-Every IsBuilt (has_prefix raw (text "vless://")) _ _ (vless-IsBuilt (lib.parse_url raw)) (
        if-Every IsBuilt (has_prefix raw (text "vmess://")) _ _ (vmess-IsBuilt _) (
          if-Every IsBuilt (has_prefix raw (text "trojan://")) _ _
            (trojan-IsBuilt (lib.parse_url raw))
            (if-Every IsBuilt (has_prefix raw (text "ss://")) _ none
              (shadowsocks-IsBuilt (lib.parse_url raw)) tt)))

  -- A node that is parsed from a link belongs to the subscription, has the tag of the time as its tag
  -- and id, and an outbound with that tag and the node's protocol.
  pub parse_node_uri-IsBuilt :
      (link : Bytes) (n : Node Json) → parse_node_uri lib now sub link ≡ some n → IsBuilt n
  parse_node_uri-IsBuilt link n e =
      of_some IsBuilt (parse_node_uri lib now sub link) n (parsed-Every link) e

  pub parsed-IsCarrying : (link : Bytes) → Every IsCarrying (parse_node_uri lib now sub link)
  parsed-IsCarrying link = weaken (parse_node_uri lib now sub link) (parsed-Every link)
    where
      weaken : (o : Option (Node Json)) → Every IsBuilt o → Every IsCarrying o
      weaken none h = tt
      weaken (some n) (tag, id, of, raw, has, tagged, typed) = (raw, has, tagged)
