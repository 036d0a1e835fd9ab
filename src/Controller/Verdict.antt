-- ===== src/Controller/Verdict.antt =====
-- `handleTestDomain` of cmd/mosdns-controller/main.go: what the web page says of a domain. The display
-- texts `action_label` and `explanation` of the answer are left out.
pub mod Prediction
pub mod Rules
use Prim.Native.String.{String}
use opn_box.Base.{
  ℕ, Bool, true, false, Option, none, some, List, [], ◌∷◌, ◌++◌, Bytes, length, ◌==◌, if◌then◌else◌,
  bytes_eq,
}
use opn_box.Text.{text, trim_space}
use opn_box.Text.Lines.{join}
use opn_box.Controller.{Settings, Host, join_path}
use opn_box.Controller.Reading.{match_domain_in_file}

pub data Action : Type 0 where
  block direct proxy : Action

pub record Verdict : Type 0 where
  pub action : Action
  pub matched_file : Bytes
  pub matched_pattern : Bytes
  pub upstream : Bytes
  pub sync_to_pf : Bool

-- A list that a domain was found in, by its title, and the pattern.
abbrev pub Found : Type 0
Found = Option (Bytes × Bytes)

-- The first of two lists that has a match.
abbrev pub first_of : Bytes → Option Bytes → Bytes → Option Bytes → Found
first_of title (some pattern) title' later = some (title, pattern)
first_of title none title' (some pattern) = some (title', pattern)
first_of title none title' none = none

-- The upstream's text with its servers.
abbrev pub upstream_text : Bytes → List Bytes → Bytes
upstream_text title servers = title ++ (text " (" ++ (join (text ", ") servers ++ text ")"))

abbrev pub go_direct : Settings → Bytes → Bytes → Verdict
go_direct s file pattern = record {
  action = direct;
  matched_file = file;
  matched_pattern = pattern;
  upstream = upstream_text (text "国内本地 DNS") s.local_dns;
  sync_to_pf = false;
}

abbrev pub go_proxy : Settings → Bytes → Bytes → Verdict
go_proxy s file pattern = record {
  action = proxy;
  matched_file = file;
  matched_pattern = pattern;
  upstream = upstream_text (text "海外防污染 DoH") s.remote_dns;
  sync_to_pf = true;
}

abbrev pub blocked : Bytes → Verdict
blocked pattern = record {
  action = block;
  matched_file = text "custom-block.txt";
  matched_pattern = pattern;
  upstream = text "无 (直接拒答 / 丢弃)";
  sync_to_pf = false;
}

abbrev pub in_blacklist : Settings → Found → Verdict
in_blacklist s (some (file, pattern)) = go_proxy s file pattern
in_blacklist s none = go_direct s (text "默认直连 (黑名单未命中)") (text "-")

abbrev pub in_custom : Settings → Found → Found → Verdict
in_custom s (some (file, pattern)) is_proxy = go_direct s file pattern
in_custom s none (some (file, pattern)) = go_proxy s file pattern
in_custom s none none =
    if bytes_eq s.custom_default_route (text "proxy")
    then go_proxy s (text "未分类/未知域名") (text "-")
    else go_direct s (text "未分类/未知域名") (text "-")

abbrev pub in_whitelist : Settings → Found → Found → Verdict
in_whitelist s (some (file, pattern)) is_proxy = go_direct s file pattern
in_whitelist s none (some (file, pattern)) = go_proxy s file pattern
in_whitelist s none none = go_proxy s (text "未明确国内/海外白名单") (text "-")

-- The `switch` on the mode.
unfoldable pub by_mode : Settings → Found → Found → Verdict
by_mode s is_direct is_proxy =
    if bytes_eq s.mode (text "blacklist")
    then in_blacklist s is_proxy
    else if bytes_eq s.mode (text "custom")
    then in_custom s is_direct is_proxy
    else in_whitelist s is_direct is_proxy

abbrev pub unless_blocked : Option Bytes → Verdict → Verdict
unless_blocked (some pattern) v = blocked pattern
unless_blocked none v = v

module _ (to_lower : Bytes → Bytes) (host : Host) (rule_dir : Bytes) where
  open host use {World, read}

  abbrev pub match_in : World → Bytes → Bytes → Option Bytes
  match_in w name domain = match_domain_in_file to_lower (read w (join_path rule_dir name)) domain

  abbrev pub found_direct : World → Bytes → Found
  found_direct w domain =
      first_of (text "custom-direct.txt (用户自定义直连)") (match_in w (text "custom-direct.txt") domain)
        (text "cn.txt (GeoSite CN 权威国内库)") (match_in w (text "cn.txt") domain)

  abbrev pub found_proxy : World → Bytes → Found
  found_proxy w domain =
      first_of (text "custom-proxy.txt (用户自定义出海代理)") (match_in w (text "custom-proxy.txt") domain)
        (text "gfw.txt (GeoSite GFW 权威出海库)") (match_in w (text "gfw.txt") domain)

  abbrev pub found_block : Settings → World → Bytes → Option Bytes
  found_block s w domain =
      if s.block_enabled then match_in w (text "custom-block.txt") domain else none

  unfoldable pub verdict : Settings → World → Bytes → Verdict
  verdict s w domain =
      unless_blocked (found_block s w domain)
        (by_mode s (found_direct w domain) (found_proxy w domain))

  -- `handleTestDomain` with the settings that were loaded; `none` is the answer 400.
  unfoldable pub test_domain : Settings → World → Bytes → Option Verdict
  unfolding verdict
  test_domain s w query =
      let domain = trim_space query in
      if length domain == 0 then none else some (verdict s w domain)
