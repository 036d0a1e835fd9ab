-- ===== src/Xray/Handlers/Service.antt =====
-- The handlers of cmd/xray-controller/main.go that control xray: its service, its log and its
-- configuration.
use opn_box.Base.{
  ℕ, Bool, true, false, Option, none, some, List, [], ◌∷◌, ◌++◌, Bytes, if◌then◌else◌, bytes_eq,
}
use opn_box.Text.{text}
use opn_box.Text.Lines.{split}
use opn_box.Text.Numbers.{positive}
use opn_box.Web.{
  Method, post, Answer, answered, failed, bad_request, not_allowed, internal_error, Handled,
  restart_twice, run_service,
}
use opn_box.Web.Process.{process_id, settled}
use opn_box.Controller.{Host}
use opn_box.Controller.Reading.{lines_to_read, last}
use opn_box.Xray.{AppData}
use opn_box.Xray.Json.{Json, string}
use opn_box.Xray.Config.{XrayConfig, generate_xray_config}
use opn_box.Xray.Handlers.{
  Flags, Part, log_part, dns_part, routing_part, inbounds_part, outbounds_part, file_name, Codec,
  load_data,
}

-- The map `modularFiles` of `handleApplyConfig`.
abbrev pub modular_files : List Part
modular_files = log_part ∷ dns_part ∷ routing_part ∷ inbounds_part ∷ outbounds_part ∷ []

-- What a command or its service has answered; the process runs if its id is not 0.
pub record Applied : Type 0 where
  pub success : Bool
  pub output : Bytes
  pub pid : ℕ

module _ (host : Host) (flags : Flags) (codec : Codec) where
  open host use {World, read, write, make_dir, exists, remove, link, command, sleep}

  -- `getPID`
  abbrev pub get_pid : World → World × ℕ
  get_pid = process_id host (text "xray") (text "/var/run/xray.pid")

  abbrev pub test_command : List Bytes
  test_command = flags.xray_bin ∷ text "run" ∷ text "-test" ∷ text "-confdir" ∷ flags.conf_dir ∷ []

  abbrev tested : World × Bool × Bytes → Handled host Applied
  tested (w, ok, out) = (w, answered (record { success = ok; output = out; pid = 0 }))

  abbrev served : Bytes → World × Bool × Bytes → Handled host Applied
  served action (w, ok, out) =
      let (w', pid) =
        settled host (text "xray") (text "/var/run/xray.pid") (bytes_eq action (text "stop"))
          (get_pid (sleep w 400)) in
      (w', answered (record { success = ok; output = out; pid = pid }))

  -- `handleService`; a test answers no process id.
  unfoldable pub handle_service : Method → Option Bytes → World → Handled host Applied
  handle_service post none w = (w, failed bad_request)
  handle_service post (some action) w =
      if bytes_eq action (text "test")
      then tested (command w test_command)
      else served action (run_service host flags.rc_service (text "one" ++ action) w)
  handle_service _ body w = (w, failed not_allowed)

  abbrev lines_of : Bytes → ℕ → Option Bytes → List Bytes
  lines_of missing count none = missing ∷ []
  lines_of missing count (some content) = last count (split 10 content)

  -- The lines of the log that `handleLogs` answers.
  unfoldable pub handle_logs : Bytes → Bytes → World → List Bytes
  handle_logs missing lines w =
      lines_of missing (lines_to_read 80 (positive lines)) (read w flags.log_file)

  -- `handleStatus`: whether xray runs, by its process id.
  abbrev pub handle_status : World → World × ℕ
  handle_status = get_pid

  abbrev shown : Option (AppData Json) → Answer (AppData Json)
  shown none = failed internal_error
  shown (some d) = answered d

  -- `handleGetData`
  unfoldable pub handle_get_data : World → Answer (AppData Json)
  handle_get_data w = shown (load_data host flags codec w)

  abbrev preview : Option (AppData Json) → Answer (XrayConfig Json)
  preview none = failed internal_error
  preview (some d) = answered (generate_xray_config string d)

  -- `handlePreviewConfig`
  unfoldable pub handle_preview_config : World → Answer (XrayConfig Json)
  handle_preview_config w = preview (load_data host flags codec w)

  abbrev pub part_path : Part → Bytes
  part_path part = flags.conf_dir ++ (b'/' ∷ file_name part)

  abbrev pub write_part : Part → Option Bytes → World → World × Bool
  write_part part none w = (w, false)
  write_part part (some out) w = write w (part_path part) out

  -- The loop over the parts, in the order in which the map yields them; the first failure ends it.
  unfoldable pub write_parts : XrayConfig Json → List Part → World → World × Bool
  write_parts cfg [] w = (w, true)
  write_parts cfg (part ∷ rest) w =
      let (w', ok) = write_part part (codec.marshal_part part cfg) w in
      let behind = write_parts cfg rest w' in if ok then behind else (w', false)

  abbrev linked : World → World
  linked w =
      let old = text "/usr/local/etc/xray" in if exists w old then w else link w flags.conf_dir old

  abbrev pub checked : World × Bool × Bytes → Handled host Applied
  checked (w, false, out) = (w, answered (record { success = false; output = out; pid = 0 }))
  checked (w, true, out) =
      let (w', pid) = get_pid (sleep (restart_twice host flags.rc_service (linked w)) 500) in
      (w', answered (record { success = true; output = []; pid = pid }))

  abbrev pub written : World × Bool → Handled host Applied
  written (w, false) = (w, failed internal_error)
  written (w, true) =
      checked (command (remove w (flags.conf_dir ++ text "/config.json")) test_command)

  abbrev pub applied :
      (List Part → List Part) → Option (AppData Json) → World → Handled host Applied
  applied order none w = (w, failed internal_error)
  applied order (some d) w = written (
      write_parts (generate_xray_config string d) (order modular_files) (make_dir w flags.conf_dir))

  -- `handleApplyConfig`; `order` is that of the `range` over the map.
  unfoldable pub handle_apply_config : (List Part → List Part) → World → Handled host Applied
  handle_apply_config order w = applied order (load_data host flags codec w) w
