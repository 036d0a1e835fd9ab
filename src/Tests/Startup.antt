-- ===== src/Tests/Startup.antt =====
-- The start of cmd/mosdns-controller/main.go on files in memory.
use opn_box.Base.{◌≡◌, refl, true, some, [], ◌∷◌, Bytes}
use opn_box.Base.Dict.{Dict}
use opn_box.Text.{text, trim_space, space_width, space_width_back, has_prefix}
use opn_box.Text.Lines.{scan_lines}
use opn_box.Controller.{file_exists, join_path}
use opn_box.Tests.Files.{disk-KeepsStats}
use opn_box.Controller.Reading.{count_entries}
use opn_box.Controller.Handlers.{Flags, Codec}
use opn_box.Controller.Startup.{custom_direct, custom_block, content_of, lines_of, start_up}
use opn_box.Controller.Started.{IsQuietDir}
use opn_box.Controller.Ready.{WritesAll, start_up-Ready}
use opn_box.Tests.Files.{disk, disk-KeepsFiles}

abbrev paths : Flags
paths = record {
  config_file = text "/c/config.yaml";
  settings_file = text "/c/settings.yaml";
  settings_dir = text "/c";
  controller_yaml = text "/c/controller.yaml";
  rule_dir = text "/r";
  log_file = text "/l/mosdns.log";
  alias_log_file = text "/l/pf-aliasd.log";
  rc_service = text "mosdns";
  alias_service = text "pf_aliasd";
}

abbrev codec : Codec
codec = record {
  unmarshal = λ out s. (s, true);
  marshal_settings = λ s. some (text "mode: whitelist\n");
  marshal_yaml = λ y. some (text "plugins:\n");
  header = λ s. [];
}

abbrev blocked : Dict Bytes
blocked = (text "/r/custom-block.txt", text "ads.example\n") ∷ []

disk-WritesAll : WritesAll disk
disk-WritesAll w path content = refl

disk-IsQuietDir : IsQuietDir disk
disk-IsQuietDir w dir path = refl

start_up-Ready_example :
    (file_exists disk
        (start_up disk (text "/c") paths codec blocked)
        (join_path (text "/r") (text "custom-direct.txt"))
      ≡ true)
    × (file_exists disk
          (start_up disk (text "/c") paths codec blocked)
          (join_path (text "/r") (text "custom-proxy.txt"))
        ≡ true)
    × (file_exists disk
          (start_up disk (text "/c") paths codec blocked)
          (join_path (text "/r") (text "custom-block.txt"))
        ≡ true)
    × (file_exists disk (start_up disk (text "/c") paths codec blocked) (text "/c/config.yaml")
        ≡ true)
    × ((path content : Bytes)
        → disk.read blocked path ≡ some content
        → disk.read (start_up disk (text "/c") paths codec blocked) path ≡ some content)
start_up-Ready_example =
    start_up-Ready disk (text "/c") paths codec disk-KeepsFiles disk-WritesAll disk-IsQuietDir
      disk-KeepsStats (λ y. refl) blocked

-- The samples of a new file count, its comments do not.
direct_entries : count_entries (scan_lines (content_of custom_direct)) ≡ 3
unfolding lines_of count_entries scan_lines trim_space space_width space_width_back has_prefix
direct_entries = refl

block_entries : count_entries (scan_lines (content_of custom_block)) ≡ 0
unfolding lines_of count_entries scan_lines trim_space space_width space_width_back has_prefix
block_entries = refl
