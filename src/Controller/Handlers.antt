-- ===== src/Controller/Handlers.antt =====
-- The handlers of cmd/mosdns-controller/main.go for settings and rule files. A request's body is the
-- decoded JSON, `none` where it does not decode. YAML, JSON and the clock are parameters; the paths are
-- those of the flags.
pub mod Requests
pub mod Service
use Prim.Native.String.{String}
use opn_box.Base.{
  ℕ, ◌+◌, Bool, true, false, not, ◌&&◌, ◌||◌, Option, none, some, List, [], ◌∷◌, ◌++◌, Bytes,
  length, ltb, ◌==◌, if◌then◌else◌, bytes_eq,
}
use opn_box.Text.{text, trim_space}
use opn_box.Text.Lines.{split, join, replace_crlf, scan_lines}
use opn_box.Text.Numbers.{positive}
use opn_box.Web.{
  Method, get, post, other_method, Answer, answered, failed, bad_request, forbidden, not_allowed,
  internal_error, Handled, pgrep, restart_twice, run_service,
}
use opn_box.Controller.{Settings, default_settings, Host, file_exists, join_path}
use opn_box.Controller.Reading.{count_in, lines_to_read, read_last_lines}
use opn_box.Controller.Config.{MosdnsYaml, generate_mosdns_config}

-- The flags that the handlers use, with the directory of the settings file and the path of the old
-- `controller.yaml` in it.
pub record Flags : Type 0 where
  pub config_file : Bytes
  pub settings_file : Bytes
  pub settings_dir : Bytes
  pub controller_yaml : Bytes
  pub rule_dir : Bytes
  pub log_file : Bytes
  pub alias_log_file : Bytes
  pub rc_service : Bytes
  pub alias_service : Bytes

-- The libraries: `yaml.Unmarshal` over a value, which it may have changed where it fails too, and the
-- encoders.
pub record Codec : Type 0 where
  pub unmarshal : Bytes → Settings → Settings × Bool
  pub marshal_settings : Settings → Option Bytes
  pub marshal_yaml : MosdnsYaml → Option Bytes
  pub header : Settings → Bytes

-- The loop that cleans the lines of a rule file.
unfoldable pub clean_lines : List Bytes → List Bytes
clean_lines [] = []
clean_lines (l ∷ ls) =
    let rest = clean_lines ls in
    let trimmed = trim_space l in if length trimmed == 0 then rest else trimmed ∷ rest

-- The content that `handleRules` writes.
unfoldable pub normalized : Bytes → Bytes
normalized content = join (text "\n") (clean_lines (split 10 (replace_crlf content))) ++ text "\n"

-- `allowedFiles`: whether a file may be edited, `none` for an unknown name.
unfoldable pub editable : Bytes → Option Bool
editable name =
    if bytes_eq name (text "custom-direct.txt")
      || bytes_eq name (text "custom-proxy.txt")
      || bytes_eq name (text "custom-block.txt")
    then some true
    else if bytes_eq name (text "cn.txt") || bytes_eq name (text "gfw.txt")
    then some false
    else none

pub record RuleFile : Type 0 where
  pub name : Bytes
  pub content : Bytes
  pub count : ℕ
  pub read_only : Bool

-- `FileSummary` without the time of the last change.
pub record FileSummary : Type 0 where
  pub name : Bytes
  pub count : ℕ
  pub read_only : Bool
  pub size_bytes : ℕ

pub data RulesAnswer : Type 0 where
  summary : List FileSummary → RulesAnswer
  shown : RuleFile → RulesAnswer
  stored : Bytes → ℕ → RulesAnswer

pub record RulesRequest : Type 0 where
  pub content : Bytes
  pub reload : Bool

pub record ConfigRequest : Type 0 where
  pub settings : Settings
  pub restart : Bool

pub data ConfigAnswer : Type 0 where
  current : Settings → ConfigAnswer
  saved : Bool → ConfigAnswer

abbrev pub content_of : Option Bytes → Bytes
content_of (some content) = content
content_of none = []

abbrev pub size_of : Option Bytes → ℕ
size_of (some content) = length content
size_of none = 0

module _ (host : Host) (flags : Flags) (codec : Codec) where
  open host use {World, read, write, make_dir, command, sleep}

  abbrev pub encoded_settings : World → Option Bytes → World × Bool
  encoded_settings w none = (w, false)
  encoded_settings w (some out) = write (make_dir w flags.settings_dir) flags.settings_file out

  -- `saveSettingsLocked`; the directory of a path is never empty.
  unfoldable pub save_settings : Settings → World → World × Bool
  save_settings s w = encoded_settings w (codec.marshal_settings s)

  abbrev pub parsed : Option Bytes → Settings
  parsed none = default_settings
  parsed (some out) = (codec.unmarshal out default_settings).0

  -- `loadSettings`
  unfoldable pub load_settings : World → World × Settings
  load_settings w =
      if file_exists host w flags.settings_file
      then (w, parsed (read w flags.settings_file))
      else if file_exists host w flags.controller_yaml
      then (w, parsed (read w flags.controller_yaml))
      else ((save_settings default_settings w).0, default_settings)

  abbrev pub generate : Settings → World → World × Bool
  generate =
      generate_mosdns_config host flags.rule_dir flags.config_file codec.marshal_yaml codec.header

  abbrev pub restarted : Bool → World → World
  restarted true w = restart_twice host flags.rc_service w
  restarted false w = w

  abbrev on_generated : Bool → World × Bool → Handled host ConfigAnswer
  on_generated restart (w, false) = (w, failed internal_error)
  on_generated restart (w, true) = (restarted restart w, answered (saved restart))

  abbrev on_saved : ConfigRequest → World × Bool → Handled host ConfigAnswer
  on_saved req (w, false) = (w, failed internal_error)
  on_saved req (w, true) = on_generated req.restart (generate req.settings w)

  -- `handleConfig`
  unfoldable pub handle_config : Method → Option ConfigRequest → World → Handled host ConfigAnswer
  handle_config get body w = let (w', s) = load_settings w in (w', answered (current s))
  handle_config post none w = (w, failed bad_request)
  handle_config post (some req) w = on_saved req (save_settings req.settings w)
  handle_config other_method body w = (w, failed not_allowed)

  abbrev pub rule_path : Bytes → Bytes
  rule_path name = join_path flags.rule_dir name

  abbrev pub summary_of : World → Bytes → Bool → FileSummary
  summary_of w name may_edit = record {
    name = name;
    count = count_in (read w (rule_path name));
    read_only = not may_edit;
    size_bytes = size_of (read w (rule_path name));
  }

  -- The answer without a name; the source lists the files in the order of a map.
  abbrev pub summaries : World → List FileSummary
  summaries w =
      summary_of w (text "custom-direct.txt") true
      ∷ summary_of w (text "custom-proxy.txt") true
      ∷ summary_of w (text "custom-block.txt") true
      ∷ summary_of w (text "cn.txt") false
      ∷ summary_of w (text "gfw.txt") false
      ∷ []

  abbrev pub on_written : Bytes → Bool → World × Bool → Handled host RulesAnswer
  on_written name reload (w, false) = (w, failed internal_error)
  on_written name reload (w, true) =
      let w' = restarted reload w in
      (w', answered (stored name (count_in (read w' (rule_path name)))))

  abbrev pub edited : Bytes → Bool → Option RulesRequest → World → Handled host RulesAnswer
  edited name false body w = (w, failed forbidden)
  edited name true none w = (w, failed bad_request)
  edited name true (some req) w =
      on_written name req.reload (write w (rule_path name) (normalized req.content))

  abbrev pub shown_file : World → Bytes → Bool → RuleFile
  shown_file w name may_edit = record {
    name = name;
    content = content_of (read w (rule_path name));
    count = count_in (read w (rule_path name));
    read_only = not may_edit;
  }

  abbrev pub named_rules :
      Method → Bytes → Option Bool → Option RulesRequest → World → Handled host RulesAnswer
  named_rules method name none body w = (w, failed bad_request)
  named_rules get name (some may_edit) body w = (w, answered (shown (shown_file w name may_edit)))
  named_rules post name (some may_edit) body w = edited name may_edit body w
  named_rules other_method name (some may_edit) body w = (w, failed not_allowed)

  -- `handleRules`
  unfoldable pub handle_rules :
      Method → Bytes → Option RulesRequest → World → Handled host RulesAnswer
  unfolding editable normalized
  handle_rules method name body w =
      if length name == 0
      then (w, answered (summary (summaries w)))
      else named_rules method name (editable name) body w
