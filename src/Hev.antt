-- ===== src/Hev.antt =====
-- cmd/hev-controller/main.go: the web service that keeps the configuration of hev-socks5-tunnel and runs
-- its service. YAML is a parameter, and so is the world of files and commands.
pub mod Saved
use Prim.Native.String.{String}
use opn_box.Base.{
  ℕ, Bool, true, false, ◌||◌, Option, none, some, List, [], ◌∷◌, ◌++◌, Bytes, if◌then◌else◌,
  bytes_eq,
}
use opn_box.Base.Integers.{ℤ, pos}
use opn_box.Text.{text}
use opn_box.Text.Lines.{split}
use opn_box.Text.Numbers.{positive}
use opn_box.Web.{
  Method, get, post, other_method, Answer, answered, failed, bad_request, not_allowed,
  internal_error, Handled, restart, run_service,
}
use opn_box.Web.Process.{process_id, settled}
use opn_box.Controller.{Host}
use opn_box.Controller.Reading.{lines_to_read, last}

pub record TunnelSection : Type 0 where
  pub name : Bytes
  pub mtu : ℤ
  pub multi_queue : Bool
  pub ipv4 : Bytes
  pub ipv6 : Bytes

pub record Socks5Section : Type 0 where
  pub address : Bytes
  pub port : ℤ
  pub udp : Bytes
  pub username : Bytes
  pub password : Bytes

pub record MiscSection : Type 0 where
  pub task_stack_size : ℤ
  pub connect_timeout : ℤ
  pub read_write_timeout : ℤ
  pub log_file : Bytes
  pub log_level : Bytes

pub record HevConfig : Type 0 where
  pub tunnel : TunnelSection
  pub socks5 : Socks5Section
  pub misc : MiscSection

pub record Flags : Type 0 where
  pub config_file : Bytes
  pub config_dir : Bytes
  pub log_file : Bytes
  pub rc_service : Bytes

pub record Codec : Type 0 where
  pub unmarshal : Bytes → Option HevConfig
  pub marshal : HevConfig → Option Bytes

-- A configuration or none, and whether there was an error.
pub record Loaded : Type 0 where
  pub config : Option HevConfig
  pub failed_to_load : Bool

pub record ServiceStatus : Type 0 where
  pub pid : ℕ
  pub loaded : Loaded

pub record Report : Type 0 where
  pub success : Bool
  pub output : Bytes
  pub pid : ℕ

-- The configuration that is offered where there is no file.
abbrev pub fallback_config : Bytes → HevConfig
fallback_config log_file = record {
  tunnel = record {
    name = text "tun0";
    mtu = pos 1500;
    multi_queue = false;
    ipv4 = text "198.18.0.1";
    ipv6 = [];
  };
  socks5 = record {
    address = text "127.0.0.1";
    port = pos 10808;
    udp = text "udp";
    username = [];
    password = [];
  };
  misc = record {
    task_stack_size = pos 0;
    connect_timeout = pos 0;
    read_write_timeout = pos 0;
    log_file = log_file;
    log_level = text "info";
  };
}

abbrev pub is_valid_action : Bytes → Bool
is_valid_action action =
    bytes_eq action (text "start")
    || bytes_eq action (text "stop")
    || bytes_eq action (text "restart")
    || bytes_eq action (text "status")

abbrev of_decoded : Option HevConfig → Loaded
of_decoded none = record { config = none; failed_to_load = true }
of_decoded (some cfg) = record { config = some cfg; failed_to_load = false }

module _ (host : Host) (flags : Flags) (codec : Codec) where
  open host use {World, read, write, make_dir, sleep}

  -- `getPID`
  abbrev pub get_pid : World → World × ℕ
  get_pid = process_id host (text "hev-socks5-tunnel") (text "/var/run/hev-socks5-tunnel.pid")

  abbrev pub loaded_from : Option Bytes → Loaded
  loaded_from none = record {
    config = some (fallback_config flags.log_file);
    failed_to_load = true;
  }
  loaded_from (some out) = of_decoded (codec.unmarshal out)

  -- `loadConfig`
  unfoldable pub load_config : World → Loaded
  load_config w = loaded_from (read w flags.config_file)

  abbrev pub written : World → Option Bytes → World × Bool
  written w none = (w, false)
  written w (some out) = write (make_dir w flags.config_dir) flags.config_file out

  -- `saveConfig`
  unfoldable pub save_config : HevConfig → World → World × Bool
  save_config cfg w = written w (codec.marshal cfg)

  -- `handleStatus`
  unfoldable pub handle_status : World → World × ServiceStatus
  handle_status w = let (w', pid) = get_pid w in (w', record { pid = pid; loaded = load_config w' })

  abbrev pub shown : Loaded → Answer (Option HevConfig)
  shown l = if l.failed_to_load then failed internal_error else answered l.config

  abbrev pub on_saved : Bool → World × Bool → Handled host (Option HevConfig)
  on_saved again (w, false) = (w, failed internal_error)
  on_saved again (w, true) = (if again then restart host flags.rc_service w else w, answered none)

  -- `handleConfig`; a post answers no configuration.
  unfoldable pub handle_config :
      Method → Option (HevConfig × Bool) → World → Handled host (Option HevConfig)
  handle_config get body w = (w, shown (load_config w))
  handle_config post none w = (w, failed bad_request)
  handle_config post (some (cfg, again)) w = on_saved again (save_config cfg w)
  handle_config other_method body w = (w, failed not_allowed)

  abbrev served : Bytes → World × Bool × Bytes → Handled host Report
  served action (w, ok, out) =
      let (w', pid) =
        settled host (text "hev-socks5-tunnel") (text "/var/run/hev-socks5-tunnel.pid")
          (bytes_eq action (text "stop")) (get_pid (sleep w 300)) in
      (w', answered (record { success = ok; output = out; pid = pid }))

  -- `handleService`
  unfoldable pub handle_service : Method → Option Bytes → World → Handled host Report
  handle_service post none w = (w, failed bad_request)
  handle_service post (some action) w =
      if is_valid_action action
      then served action (run_service host flags.rc_service (text "one" ++ action) w)
      else (w, failed bad_request)
  handle_service _ body w = (w, failed not_allowed)

  abbrev lines_of : Bytes → ℕ → Option Bytes → List Bytes
  lines_of missing count none = missing ∷ []
  lines_of missing count (some content) = last count (split 10 content)

  -- The lines of the log that `handleLogs` answers; `missing` tells that there is none.
  unfoldable pub handle_logs : Bytes → Bytes → World → List Bytes
  handle_logs missing lines w =
      lines_of missing (lines_to_read 60 (positive lines)) (read w flags.log_file)
