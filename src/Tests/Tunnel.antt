-- ===== src/Tests/Tunnel.antt =====
-- cmd/hev-controller/main.go on a disk without a configuration.
use opn_box.Base.{◌≡◌, refl, true, none, some, [], ◌∷◌, Bytes}
use opn_box.Base.Dict.{Dict, put}
use opn_box.Text.{text}
use opn_box.Web.{get, post, answered, restart}
use opn_box.Hev.{HevConfig, Flags, Codec, fallback_config, save_config, handle_config}
use opn_box.Hev.Saved.{handle_config_returns}
use opn_box.Tests.Files.{disk, disk-KeepsFiles, disk-IsQuietAt}

abbrev paths : Flags
paths = record {
  config_file = text "/h/main.yml";
  config_dir = text "/h";
  log_file = text "/l/hev.log";
  rc_service = text "hev";
}

abbrev config : HevConfig
config = fallback_config (text "/l/hev.log")

abbrev one_letter : Codec
one_letter = record { unmarshal = λ s. some config; marshal = λ cfg. some (text "h") }

abbrev saved : Dict Bytes
saved = (text "/h/main.yml", text "h") ∷ []

save_run :
    handle_config disk paths one_letter post (some (config, true)) [] ≡ (saved, answered none)
unfolding handle_config save_config restart put
save_run = refl

handle_config_returns_example :
    handle_config disk paths one_letter get none saved ≡ (saved, answered (some config))
handle_config_returns_example =
    handle_config_returns disk paths one_letter disk-KeepsFiles
      (disk-IsQuietAt (text "/h/main.yml")) config (λ out e. refl) true [] saved save_run
