-- ===== src/Xray/Links.antt =====
-- The parsers of node links of cmd/xray-controller/main.go. URLs, Base64 and JSON are decoded by
-- parameters; `now` is the time in nanoseconds.
pub mod Build
pub mod Carried
use Prim.Native.String.{String}
use opn_box.Base.{
  ℕ, ◌%◌, Bool, true, false, ◌&&◌, Option, none, some, List, [], ◌∷◌, ◌++◌, Bytes, if◌then◌else◌,
  bytes_eq,
}
use opn_box.Base.Dict.{Dict, lookup}
use opn_box.Base.Integers.{ℤ, pos}
use opn_box.Text.{text, has_prefix, trim_prefix, trim_space}
use opn_box.Text.Numbers.{atoi_or_zero, show}
use opn_box.Text.Escapes.{path_unescape, split_colon}
use opn_box.Xray.{Node}
use opn_box.Xray.Json.{
  Json, string, number, array, object, Fields, no_field, field, one_object, Value, string_value,
  number_value, other_value, string_of,
}
use opn_box.Xray.Links.Build.{
  or_else, username, or_empty, new_tag, display_name, address_text, node, vnext, servers,
  tls_settings, security_settings, network_settings, stream, outbound_map,
}

-- `url.URL`: the name of its user, none where it has none, `Query().Get` and the decoded fragment.
pub record Url : Type 0 where
  pub user : Option Bytes
  pub host : Bytes
  pub query : Bytes → Bytes
  pub fragment : Bytes

-- The packages net/url, net, base64 and json.
pub record Library : Type 0 where
  pub parse_url : Bytes → Option Url
  pub split_host_port : Bytes → Option (Bytes × Bytes)
  pub decode_std : Bytes → Option Bytes
  pub decode_raw_url : Bytes → Option Bytes
  pub decode_json : Bytes → Option (Dict Value)

module _ (lib : Library) (now : ℕ) (sub : Bytes) where
  open lib use {parse_url, split_host_port, decode_std, decode_raw_url, decode_json}

  abbrev vless_at : Url → Option (Bytes × Bytes) → Option (Node Json)
  vless_at u none = none
  vless_at u (some (host, port_text)) =
      let q = u.query in
      let port = atoi_or_zero port_text in
      let network = or_else (q (text "type")) (or_else (q (text "net")) (text "tcp")) in
      let security = or_else (q (text "security")) (text "none") in
      let sni = or_else (q (text "sni")) (q (text "serverName")) in
      let path = q (text "path") in
      let mode = q (text "mode") in
      let user =
        field (text "id") (string (username u.user))
          (field (text "encryption") (string (text "none")) no_field) in
      let more = security_settings q security sni (network_settings q network path mode) in
      let name = display_name u.fragment (text "VLESS-" ++ address_text host port) in
      let outbound =
        outbound_map now (text "vless") (vnext host port user)
          ((text "streamSettings", stream network security more) ∷ []) in
      some (record (node now sub name (text "vless") host port network security outbound) {
        sni = sni;
        path = path;
        xhttp_mode = mode;
      })

  abbrev vless_of : Option Url → Option (Node Json)
  vless_of none = none
  vless_of (some u) = vless_at u (split_host_port u.host)

  -- `parseVLESS`
  unfoldable pub parse_vless : Bytes → Option (Node Json)
  parse_vless link = vless_of (parse_url link)

  abbrev port_of : Option Value → ℤ
  port_of (some (number_value n)) = n
  port_of (some (string_value s)) = atoi_or_zero s
  port_of (some other_value) = pos 0
  port_of none = pos 0

  abbrev vmess_from : Option (Dict Value) → Option (Node Json)
  vmess_from none = none
  vmess_from (some v) =
      let host = string_of (lookup (text "add") v) in
      let port = port_of (lookup (text "port") v) in
      let network = string_of (lookup (text "net") v) in
      let security =
        if bytes_eq (string_of (lookup (text "tls") v)) (text "tls")
        then text "tls"
        else text "none" in
      let user = field (text "id") (string (string_of (lookup (text "id") v))) (
        field (text "alterId") (number (pos 0))
          (field (text "security") (string (text "auto")) no_field)) in
      let outbound =
        outbound_map now (text "vmess") (vnext host port user)
          ((text "streamSettings", stream network security no_field) ∷ []) in
      let name = string_of (lookup (text "ps") v) in
      some (record (node now sub name (text "vmess") host port network security outbound) {
        sni = string_of (lookup (text "sni") v);
        path = string_of (lookup (text "path") v);
      })

  abbrev decoded_json : Option Bytes → Option (Dict Value)
  decoded_json none = none
  decoded_json (some s) = decode_json s

  abbrev first_decoded : Option Bytes → Option Bytes → Option Bytes
  first_decoded (some s) later = some s
  first_decoded none later = later

  -- `parseVMess`
  unfoldable pub parse_vmess : Bytes → Option (Node Json)
  parse_vmess link =
      let coded = trim_prefix link (text "vmess://") in
      vmess_from (decoded_json (first_decoded (decode_std coded) (decode_raw_url coded)))

  abbrev trojan_at : Url → Option (Bytes × Bytes) → Option (Node Json)
  trojan_at u none = none
  trojan_at u (some (host, port_text)) =
      let port = atoi_or_zero port_text in
      let sni = u.query (text "sni") in
      let name = display_name u.fragment (text "Trojan-" ++ address_text host port) in
      let outbound =
        outbound_map now (text "trojan")
          (servers host port (field (text "password") (string (username u.user)) no_field))
          ((text "streamSettings", stream (text "tcp") (text "tls") (tls_settings sni no_field))
            ∷ []) in
      some
        (record (node now sub name (text "trojan") host port (text "tcp") (text "tls") outbound) {
          sni = sni;
        })

  abbrev trojan_of : Option Url → Option (Node Json)
  trojan_of none = none
  trojan_of (some u) = trojan_at u (split_host_port u.host)

  -- `parseTrojan`
  unfoldable pub parse_trojan : Bytes → Option (Node Json)
  parse_trojan link = trojan_of (parse_url link)

  abbrev split_user : Option Bytes → Option (Bytes × Bytes)
  split_user none = none
  split_user (some s) = split_colon s

  abbrev user_parts : Option Bytes → Option (Bytes × Bytes)
  user_parts none = none
  user_parts (some user) = split_user (decode_raw_url user)

  -- The method and the password, which are fixed where the user does not give both.
  abbrev method_and_password : Option (Bytes × Bytes) → Bytes × Bytes
  method_and_password (some parts) = parts
  method_and_password none = (text "aes-128-gcm", text "pass")

  abbrev shadowsocks_at : Url → Option (Bytes × Bytes) → Option (Node Json)
  shadowsocks_at u none = none
  shadowsocks_at u (some (host, port_text)) =
      let port = atoi_or_zero port_text in
      let (method, password) = method_and_password (user_parts u.user) in
      let name = display_name u.fragment (text "SS-" ++ u.host) in
      let outbound =
        outbound_map now (text "shadowsocks")
          (servers host port (
            field (text "method") (string method)
              (field (text "password") (string password) no_field)))
          [] in
      some (node now sub name (text "shadowsocks") host port (text "tcp") (text "none") outbound)

  abbrev shadowsocks_of : Option Url → Option (Node Json)
  shadowsocks_of none = none
  shadowsocks_of (some u) = shadowsocks_at u (split_host_port u.host)

  -- `parseShadowsocks`
  unfoldable pub parse_shadowsocks : Bytes → Option (Node Json)
  parse_shadowsocks link = shadowsocks_of (parse_url link)

  abbrev by_scheme : Bytes → Option (Node Json)
  by_scheme raw =
      if has_prefix raw (text "vless://")
      then parse_vless raw
      else if has_prefix raw (text "vmess://")
      then parse_vmess raw
      else if has_prefix raw (text "trojan://")
      then parse_trojan raw
      else if has_prefix raw (text "ss://")
      then parse_shadowsocks raw
      else none

  -- `parseNodeURI`; an empty link has none of the schemes.
  unfoldable pub parse_node_uri : Bytes → Option (Node Json)
  unfolding parse_vless parse_vmess parse_trojan parse_shadowsocks
  parse_node_uri link = by_scheme (trim_space link)
