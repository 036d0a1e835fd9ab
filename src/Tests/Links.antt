-- ===== src/Tests/Links.antt =====
-- The parsers of node links of cmd/xray-controller/main.go on links that are already taken apart.
use opn_box.Base.{◌≡◌, refl, Option, none, some, [], Bytes}
use opn_box.Base.Integers.{ℤ, pos}
use opn_box.Text.{text, has_prefix, trim_space, space_width, space_width_back}
use opn_box.Text.Escapes.{path_unescape}
use opn_box.Text.Numbers.{atoi_or_zero, show}
use opn_box.Xray.{Node}
use opn_box.Xray.Json.{Json}
use opn_box.Xray.Links.{Library, Url, parse_node_uri}
use opn_box.Xray.Links.Build.{display_name}

abbrev given : Url
given = record {
  user = some (text "secret");
  host = text "192.0.2.1:443";
  query = λ q. [];
  fragment = text "home";
}

abbrev small_library : Library
small_library = record {
  parse_url = λ s. some given;
  split_host_port = λ s. some (text "192.0.2.1", text "443");
  decode_std = λ s. none;
  decode_raw_url = λ s. none;
  decode_json = λ s. none;
}

abbrev summary : Option (Node Json) → Option (Bytes × ℤ × Bytes)
summary none = none
summary (some n) = some (n.tag, n.port, n.name)

parsed_link :
    summary (
      parse_node_uri small_library 1234567
        (text "s")
        (text " trojan://secret@192.0.2.1:443#home\n"))
    ≡ some (text "node-234567", pos 443, text "home")
unfolding parse_node_uri has_prefix trim_space space_width space_width_back show atoi_or_zero
    path_unescape
parsed_link = refl

unknown_scheme :
    summary (parse_node_uri small_library 0 (text "s") (text "http://192.0.2.1")) ≡ none
unfolding parse_node_uri has_prefix trim_space space_width space_width_back
unknown_scheme = refl

-- A name with a percent sign is lost.
lost_name : display_name (text "50% off") (text "Trojan-192.0.2.1:443") ≡ []
unfolding path_unescape
lost_name = refl
