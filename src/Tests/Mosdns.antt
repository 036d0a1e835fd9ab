-- ===== src/Tests/Mosdns.antt =====
-- cmd/mosdns-controller/main.go on small files, with a mosdns whose queries are in one set of domains.
use opn_box.Base.{
  ℕ, ◌≡◌, refl, ap, Bool, true, false, ◌&&◌, none, some, List, [], ◌∷◌, Bytes, bytes_eq,
  if◌then◌else◌,
}
use opn_box.Base.Dict.{Dict, lookup, put}
use opn_box.Text.{
  text, has_prefix, has_suffix, trim_prefix, trim_space, before, space_width, space_width_back,
}
use opn_box.Text.Lines.{join, replace_crlf, scan_lines}
use opn_box.Web.{get, post, answered, restart_twice}
use opn_box.Controller.{default_settings}
use opn_box.Controller.Reading.{clean_domain, count_entries}
use opn_box.Controller.Config.{
  Tag, forward_remote, forward_local, direct_domain_set, proxy_domain_set, block_domain_set,
  sync_to_pf, main_sequence, udp_server, tcp_server, Match, qname, has_resp, Exec, plugin, reject,
  leave, Rule, plugins_of, config_of, plugins_of,
}
use opn_box.Controller.Config.References.{IsClosed, plugins_of-IsClosed}
use opn_box.Controller.Config.Pipeline.{Sequence, IsSequence, IsAnswering, all_accept, executed}
use opn_box.Controller.Verdict.{verdict}
use opn_box.Controller.Verdict.Prediction.{outcome, sequence_rules}
use opn_box.Controller.Verdict.Rules.{
  IsDocumented, IsReading, AreRuleFiles, plain_rule, unprefixed, sequence-verdict,
}
use opn_box.Base.{drop, ◌||◌, arith}
use opn_box.Controller.Handlers.{
  Flags, Codec, RulesRequest, stored, editable, normalized, clean_lines, handle_rules,
}
use opn_box.Controller.Handlers.Requests.{
  file_with, handle_rules_confined, handle_rules_returns, IsOutside,
}
use opn_box.Tests.Files.{disk, disk-KeepsFiles, disk-IsReadable, disk-KeepsOthers, disk-IsQuietAt}

-- A query is of the set for direct domains or not; it has a response or not, and was given to plugins.
abbrev Asked : Type 0
Asked = Bool × Bool × List Tag

abbrev is_direct : Tag → Bool
is_direct direct_domain_set = true
is_direct _ = false

abbrev accepts : Asked → Match → Bool
accepts (named, responded, log) (qname t) = named && is_direct t
accepts (named, responded, log) has_resp = responded

abbrev performed : Asked → Tag → Asked
performed (named, responded, log) forward_remote = (named, true, forward_remote ∷ log)
performed (named, responded, log) forward_local = (named, true, forward_local ∷ log)
performed (named, responded, log) t = (named, responded, t ∷ log)

abbrev rejected : Asked → ℕ → Asked
rejected (named, responded, log) code = (named, true, log)

abbrev all_in : Asked → List Match → Bool
all_in q [] = true
all_in q (m ∷ ms) = accepts q m && all_in q ms

abbrev going_on : Exec → Asked → (Asked → Asked) → Asked
going_on (plugin t) q rest = rest (performed q t)
going_on (reject code) q rest = rejected q code
going_on leave q rest = q

abbrev run : List Rule → Asked → Asked
run [] q = q
run (r ∷ rest) q =
    let behind = run rest in if all_in q r.matches then going_on r.exec q behind else behind q

abbrev small_mosdns : Sequence
small_mosdns = record {
  Query = Asked;
  accepts = accepts;
  perform = performed;
  rejected = rejected;
  run = run;
}

all_same : (q : Asked) (ms : List Match) → all_in q ms ≡ all_accept small_mosdns q ms
all_same q [] = refl
all_same q (m ∷ ms) = ap (λ b. accepts q m && b) (all_same q ms)

exec_same :
    (e : Exec) (q : Asked) (rest : List Rule)
    → going_on e q (run rest) ≡ executed small_mosdns e q rest
exec_same (plugin t) q rest = refl
exec_same (reject code) q rest = refl
exec_same leave q rest = refl

small_mosdns-IsSequence : IsSequence small_mosdns
small_mosdns-IsSequence = record {
  ended = λ q. refl;
  stepped = λ r rest q. rw (all_same q r.matches, exec_same r.exec q rest) refl;
}

small_mosdns-IsAnswering : IsAnswering small_mosdns
small_mosdns-IsAnswering = record {
  remote = λ q. refl;
  local = λ q. refl;
  synced = λ q. refl;
  name_kept = name_kept;
}
  where
    name_kept : (q : Asked) (t s : Tag) → accepts (performed q t) (qname s) ≡ accepts q (qname s)
    name_kept q forward_remote s = refl
    name_kept q forward_local s = refl
    name_kept q direct_domain_set s = refl
    name_kept q proxy_domain_set s = refl
    name_kept q block_domain_set s = refl
    name_kept q sync_to_pf s = refl
    name_kept q main_sequence s = refl
    name_kept q udp_server s = refl
    name_kept q tcp_server s = refl

abbrev rules_on_disk : Dict Bytes
rules_on_disk =
    (text "/r/custom-direct.txt", text "# own\nExample.cn\n")
    ∷ (text "/r/gfw.txt", text "example.org\n")
    ∷ []

abbrev same_text : Bytes → Bytes
same_text s = s

abbrev asked : Asked
asked = (true, false, [])

-- A line's match as it is documented.
abbrev documented : Bytes → Bytes → Bool
documented line name =
    if has_prefix line (text "full:")
    then bytes_eq name (drop 5 line)
    else if has_prefix line (text "domain:")
    then bytes_eq name (drop 7 line) || has_suffix name (b'.' ∷ drop 7 line)
    else bytes_eq name line || has_suffix name (b'.' ∷ line)

documented-IsDocumented : IsDocumented documented
unfolding has_prefix
documented-IsDocumented = record {
  full = λ t name. refl;
  below = λ t name. refl;
  plain = λ t name c.
      rw (unprefixed t (text "full:") c refl, unprefixed t (text "domain:") c refl) refl;
}

disk-AreRuleFiles : AreRuleFiles documented same_text disk (text "/r") rules_on_disk
unfolding lookup bytes_eq scan_lines trim_space space_width space_width_back has_prefix
disk-AreRuleFiles = record {
  custom_block = tt;
  custom_direct = (λ e. absurd (ground (arith, e)), (λ e. plain_rule (text "Example.cn") refl, tt));
  cn = tt;
  custom_proxy = tt;
  gfw = (λ e. plain_rule (text "example.org") refl, tt);
}

asked-IsReading :
    IsReading documented same_text disk
      (text "/r")
      small_mosdns
      asked
      rules_on_disk
      (text "www.Example.cn")
unfolding lookup bytes_eq scan_lines trim_space space_width space_width_back has_prefix clean_domain
    before trim_prefix has_suffix
asked-IsReading = record { block_set = refl; direct_set = refl; proxy_set = refl }

sequence-verdict_example :
    run (sequence_rules (config_of disk (text "/r") default_settings rules_on_disk).plugins) asked
    ≡ outcome small_mosdns asked
        (verdict same_text disk
          (text "/r")
          default_settings
          rules_on_disk
          (text "www.Example.cn")).action
sequence-verdict_example =
    sequence-verdict documented same_text disk (text "/r") disk-IsReadable documented-IsDocumented
      small_mosdns default_settings rules_on_disk (text "www.Example.cn") asked
      small_mosdns-IsSequence small_mosdns-IsAnswering disk-AreRuleFiles asked-IsReading refl

plugins_of-IsClosed_example :
    IsClosed []
      (plugins_of default_settings (text "/r/cn.txt" ∷ []) [] (text "/r/custom-block.txt" ∷ []))
plugins_of-IsClosed_example =
    plugins_of-IsClosed default_settings (text "/r/cn.txt" ∷ []) []
      (text "/r/custom-block.txt" ∷ [])

abbrev paths : Flags
paths = record {
  config_file = text "/c/config.yaml";
  settings_file = text "/c/settings.yaml";
  settings_dir = text "/c";
  controller_yaml = text "/c/controller.yaml";
  rule_dir = text "/r";
  log_file = text "/l/mosdns.log";
  alias_log_file = text "/l/pf-aliasd.log";
  rc_service = text "mosdns";
  alias_service = text "pf_aliasd";
}

abbrev no_codec : Codec
no_codec = record {
  unmarshal = λ out s. (s, true);
  marshal_settings = λ s. none;
  marshal_yaml = λ y. none;
  header = λ s. [];
}

abbrev edit : RulesRequest
edit = record { content = text "  a.cn\r\n\r\nb.cn"; reload = true }

config_IsOutside : IsOutside disk paths no_codec (text "/c/settings.yaml")
unfolding bytes_eq
config_IsOutside name e = refl

handle_rules_confined_example :
    disk.read
      (handle_rules disk paths no_codec post
        (text "../c/settings.yaml")
        (some edit)
        rules_on_disk).0
      (text "/c/settings.yaml")
    ≡ disk.read rules_on_disk (text "/c/settings.yaml")
handle_rules_confined_example =
    handle_rules_confined disk paths no_codec disk-KeepsOthers (text "/c/settings.yaml")
      (disk-IsQuietAt (text "/c/settings.yaml")) config_IsOutside post (text "../c/settings.yaml")
      (some edit) rules_on_disk

abbrev after_edit : Dict Bytes
after_edit =
    (text "/r/custom-direct.txt", text "a.cn\nb.cn\n")
    ∷ (text "/r/gfw.txt", text "example.org\n")
    ∷ []

edit_run :
    handle_rules disk paths no_codec post (text "custom-direct.txt") (some edit) rules_on_disk
    ≡ (after_edit, answered (stored (text "custom-direct.txt") 2))
unfolding handle_rules bytes_eq restart_twice lookup put join count_entries clean_lines scan_lines
    trim_space replace_crlf space_width space_width_back has_prefix
edit_run = refl

handle_rules_returns_example :
    handle_rules disk paths no_codec get (text "custom-direct.txt") none after_edit ≡ (
      after_edit,
      answered (file_with disk paths no_codec (text "custom-direct.txt") (normalized edit.content)),
    )
unfolding editable bytes_eq
handle_rules_returns_example =
    handle_rules_returns disk paths no_codec disk-KeepsFiles (text "custom-direct.txt")
      (disk-IsQuietAt (text "/r/custom-direct.txt")) refl edit rules_on_disk after_edit
      (stored (text "custom-direct.txt") 2) edit_run
