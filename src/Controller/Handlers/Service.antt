-- ===== src/Controller/Handlers/Service.antt =====
-- The handlers of cmd/mosdns-controller/main.go for services, logs and the status.
use opn_box.Base.{
  ℕ, Bool, true, ◌&&◌, ◌||◌, Option, none, some, List, [], ◌∷◌, ◌++◌, Bytes, ltb, if◌then◌else◌,
  bytes_eq,
}
use opn_box.Text.{text}
use opn_box.Text.Lines.{scan_lines}
use opn_box.Text.Numbers.{positive}
use opn_box.Web.{
  Method, post, answered, failed, bad_request, not_allowed, Handled, pgrep, run_service,
}
use opn_box.Controller.{Settings, Host}
use opn_box.Controller.Reading.{count_in, lines_to_read, read_last_lines}
use opn_box.Controller.Handlers.{Flags, Codec, load_settings, rule_path}

pub record ServiceRequest : Type 0 where
  pub target : Bytes
  pub action : Bytes

pub record ServiceAnswer : Type 0 where
  pub success : Bool
  pub output : Bytes
  pub mosdns : Bool
  pub aliasd : Bool

pub record Status : Type 0 where
  pub mosdns_pid : ℕ
  pub alias_pid : ℕ
  pub settings : Settings
  pub cn : ℕ
  pub gfw : ℕ
  pub custom_direct : ℕ
  pub custom_proxy : ℕ
  pub custom_block : ℕ

module _ (host : Host) (flags : Flags) (codec : Codec) where
  open host use {World, read, command, sleep}

  abbrev pub services_of : Bytes → List Bytes
  services_of target =
      if bytes_eq target (text "alias") || bytes_eq target (text "pf_aliasd")
      then flags.alias_service ∷ []
      else if bytes_eq target (text "all")
      then flags.alias_service ∷ flags.rc_service ∷ []
      else flags.rc_service ∷ []

  -- `[service action]` and the output of the command.
  abbrev pub report : Bytes → Bytes → Bytes → Bytes
  report service action out =
      text "[" ++ (service ++ (text " " ++ (action ++ (text "]\n" ++ (out ++ text "\n")))))

  -- The loop over the services: the output, and whether all commands succeeded.
  unfoldable pub command_loop : Bytes → List Bytes → World → World × Bool × Bytes
  command_loop action [] w = (w, true, [])
  command_loop action (s ∷ rest) w =
      let (w', ok, out) = run_service host s (text "one" ++ action) w in
      let (w'', all_ok, more) = command_loop action rest w' in
      (w'', ok && all_ok, report s action out ++ more)

  abbrev pub process_of : Bytes → Bytes
  process_of service = if bytes_eq service (text "pf_aliasd") then text "pf-aliasd" else service

  -- The loop that kills what a stop has left.
  unfoldable pub kill_loop : List Bytes → World → World
  kill_loop [] w = w
  kill_loop (s ∷ rest) w =
      let (w', pid) = pgrep host (process_of s) w in
      kill_loop rest (
        if ltb 0 pid
        then (command w' (text "pkill" ∷ text "-KILL" ∷ text "-x" ∷ process_of s ∷ [])).0
        else w')

  -- `handleService`; "one" and "status" give "onestatus" in both ways of the source.
  unfoldable pub handle_service :
      Method → Option ServiceRequest → World → Handled host ServiceAnswer
  handle_service post none w = (w, failed bad_request)
  handle_service post (some req) w =
      let services = services_of req.target in
      let (w1, ok, out) = command_loop req.action services w in
      let w2 = sleep w1 300 in
      let w3 = if bytes_eq req.action (text "stop") then kill_loop services w2 else w2 in
      let (w4, mosdns) = pgrep host (text "mosdns") w3 in
      let (w5, aliasd) = pgrep host (text "pf-aliasd") w4 in
      (
        w5,
        answered
            (record { success = ok; output = out; mosdns = ltb 0 mosdns; aliasd = ltb 0 aliasd }),
      )
  handle_service _ body w = (w, failed not_allowed)

  abbrev scanned : Option Bytes → Option (List Bytes)
  scanned (some content) = some (scan_lines content)
  scanned none = none

  -- `handleLogs`; `missing` is the text for a log that is not there.
  unfoldable pub handle_logs : (Bytes → Bytes) → Bytes → Bytes → World → List Bytes
  handle_logs missing target lines w =
      let p = if bytes_eq target (text "aliasd") then flags.alias_log_file else flags.log_file in
      read_last_lines (missing p) (scanned (read w p)) (lines_to_read 80 (positive lines))

  abbrev count_of : World → Bytes → ℕ
  count_of w name = count_in (read w (rule_path host flags codec name))

  -- `handleStatus`
  unfoldable pub handle_status : World → World × Status
  handle_status w =
      let (w1, s) = load_settings host flags codec w in
      let (w2, mosdns) = pgrep host (text "mosdns") w1 in
      let (w3, aliasd) = pgrep host (text "pf-aliasd") w2 in
      (
        w3,
        record {
          mosdns_pid = mosdns;
          alias_pid = aliasd;
          settings = s;
          cn = count_of w3 (text "cn.txt");
          gfw = count_of w3 (text "gfw.txt");
          custom_direct = count_of w3 (text "custom-direct.txt");
          custom_proxy = count_of w3 (text "custom-proxy.txt");
          custom_block = count_of w3 (text "custom-block.txt");
        },
      )
