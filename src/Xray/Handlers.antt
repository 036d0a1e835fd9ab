-- ===== src/Xray/Handlers.antt =====
-- The handlers of cmd/xray-controller/main.go that change the data. A request's body is the decoded
-- JSON, `none` where it does not decode. JSON, HTTP and Base64 are parameters.
pub mod Service
pub mod Apply
pub mod Saved
pub mod Parsed
pub mod Sound
pub mod Active
use Prim.Native.String.{String}
use opn_box.Base.{
  ℕ, ◌+◌, ◌-◌, Bool, true, false, not, ◌&&◌, ◌||◌, Option, none, some, List, [], ◌∷◌, ◌++◌, Bytes,
  length, drop, ltb, leb, ◌==◌, if◌then◌else◌, bytes_eq, is_some,
}
use opn_box.Base.Dict.{Dict}
use opn_box.Base.Integers.{ℤ}
use opn_box.Text.{text, trim_space, trim_suffix}
use opn_box.Text.Lines.{split}
use opn_box.Text.Numbers.{positive}
use opn_box.Web.{
  Method, get, post, other_method, Answer, answered, failed, bad_request, not_found, not_allowed,
  internal_error, Handled, pgrep, pid_of, or_zero, restart_twice, run_service,
}
use opn_box.Controller.{Host}
use opn_box.Controller.Reading.{lines_to_read, last}
use opn_box.Xray.{
  AppData, Node, Subscription, CustomInbound, RoutingRule, default_data, with_nodes,
  add_subscription, find_subscription, update_subscription, delete_subscription, delete_node,
  set_active, save_inbounds, save_routing, pinged,
}
use opn_box.Xray.Json.{Json}
use opn_box.Xray.Links.{Library, parse_node_uri}
use opn_box.Xray.Config.{XrayConfig, generate_xray_config}

pub record Flags : Type 0 where
  pub conf_dir : Bytes
  pub data_file : Bytes
  pub log_file : Bytes
  pub rc_service : Bytes
  pub xray_bin : Bytes

-- The five parts of the configuration that are written as files.
pub data Part : Type 0 where
  log_part dns_part routing_part inbounds_part outbounds_part : Part

abbrev pub file_name : Part → Bytes
file_name log_part = text "00_log.json"
file_name dns_part = text "02_dns.json"
file_name routing_part = text "03_routing.json"
file_name inbounds_part = text "05_inbounds.json"
file_name outbounds_part = text "06_outbounds.json"

-- The encoders of JSON, the decoders of links, and the clock: `clock n` is the time when the parser of
-- links is at the line with `n` lines behind it.
pub record Codec : Type 0 where
  pub unmarshal : Bytes → Option (AppData Json)
  pub marshal : AppData Json → Option Bytes
  pub marshal_part : Part → XrayConfig Json → Option Bytes
  pub library : Library
  pub clock : ℕ → ℕ

module _ (host : Host) (flags : Flags) (codec : Codec) where
  open host use {World, read, write, make_dir, command, sleep}

  abbrev decoded : Option Bytes → Option (AppData Json)
  decoded none = some default_data
  decoded (some out) = codec.unmarshal out

  abbrev first_file : Option Bytes → Option Bytes → Option Bytes
  first_file (some out) later = some out
  first_file none later = later

  -- `loadData`: the data file, its sample or the old data file, and else the default.
  unfoldable pub load_data : World → Option (AppData Json)
  load_data w = decoded (
      first_file (read w flags.data_file) (
        first_file (read w (flags.data_file ++ text ".sample"))
          (read w (text "/usr/local/etc/xray/controller_data.json"))))

  abbrev stored : World → Option Bytes → World
  stored w none = w
  stored w (some out) = (write w flags.data_file out).0

  -- The directory by the name of the data file; a file of another name is itself taken for it.
  abbrev pub data_dir : Bytes
  data_dir = trim_suffix flags.data_file (text "/controller_data.json")

  -- `saveData`; every caller drops its error.
  unfoldable pub save_data : AppData Json → World → World
  save_data d w = stored (make_dir w data_dir) (codec.marshal d)

  -- The frame of the handlers: the data is loaded, changed and saved.
  abbrev pub changed :
      {A : Type 0}
      → Option (AppData Json)
      → (AppData Json → AppData Json × A)
      → World
      → Handled host A
  changed none change w = (w, failed internal_error)
  changed (some d) change w = let (d', a) = change d in (save_data d' w, answered a)

  abbrev pub with_node : Option (Node Json) → List (Node Json) → List (Node Json)
  with_node none nodes = nodes
  with_node (some node) nodes = node ∷ nodes

  -- `parseNodeURI` on each line that is not empty; a line that it rejects is left out.
  unfoldable pub parse_lines : Bytes → List Bytes → List (Node Json)
  parse_lines id [] = []
  parse_lines id (line ∷ rest) =
      let nodes = parse_lines id rest in
      let trimmed = trim_space line in
      if length trimmed == 0
      then nodes
      else with_node (parse_node_uri codec.library (codec.clock (length rest)) id trimmed) nodes

  abbrev or_text : Bytes → Option Bytes → Bytes
  or_text raw (some decoded) = decoded
  or_text raw none = raw

  abbrev or_decoded : Option Bytes → Option Bytes → Option Bytes
  or_decoded (some a) b = some a
  or_decoded none b = b

  abbrev pub nodes_in : Bytes → Option Bytes → Option (List (Node Json))
  nodes_in id none = none
  nodes_in id (some body) =
      let raw = trim_space body in
      some (
        parse_lines id (
          split 10 (
            or_text raw
              (or_decoded (codec.library.decode_std raw) (codec.library.decode_raw_url raw)))))

  module _ (fetch : World → Bytes → World × Option Bytes) where
    -- `fetchSubscriptionNodes`
    unfoldable pub fetch_subscription_nodes :
        Bytes → Bytes → World → World × Option (List (Node Json))
    fetch_subscription_nodes url id w = let (w', body) = fetch w url in (w', nodes_in id body)

    abbrev named : Bytes → Bytes → Bytes
    named [] default = default
    named (b ∷ name) default = b ∷ name

    abbrev subscribed :
        AppData Json → Subscription → World × Option (List (Node Json)) → Handled host ℕ
    subscribed d sub (w, none) = (w, failed bad_request)
    subscribed d sub (w, some nodes) = (
      save_data (add_subscription d (record sub { node_count = length nodes }) nodes) w,
      answered (length nodes),
    )

    abbrev adding :
        Bytes → Bytes → Bytes → Bytes → ℕ → Option (AppData Json) → World → Handled host ℕ
    adding id name default url now none w = (w, failed internal_error)
    adding id name default url now (some d) w =
        subscribed d
          (record {
            id = id;
            name = named name default;
            url = url;
            last_update = now;
            node_count = 0;
          })
          (fetch_subscription_nodes url id w)

    -- `handleAddSubscription` on a name and a URL. `id` and `now` are of the clock, which is read anew
    -- for the time of the update, and `default` is the name by the number of subscriptions.
    unfoldable pub handle_add_subscription :
        Bytes
        → (Option (AppData Json) → Bytes)
        → ℕ
        → Method
        → Option (Bytes × Bytes)
        → World
        → Handled host ℕ
    handle_add_subscription id default now post none w = (w, failed bad_request)
    handle_add_subscription id default now post (some (name, [])) w = (w, failed bad_request)
    handle_add_subscription id default now post (some (name, b ∷ url)) w =
        let d = load_data w in adding id name (default d) (b ∷ url) now d w
    handle_add_subscription id default now _ body w = (w, failed not_allowed)

    abbrev refreshed : AppData Json → Bytes → ℕ → World × Option (List (Node Json)) → Handled host ℕ
    refreshed d id now (w, none) = (w, failed bad_request)
    refreshed d id now (w, some nodes) =
        (save_data (update_subscription d id now nodes) w, answered (length nodes))

    abbrev updating : AppData Json → Bytes → ℕ → Option Subscription → World → Handled host ℕ
    updating d id now none w = (w, failed not_found)
    updating d id now (some sub) w = refreshed d id now (fetch_subscription_nodes sub.url sub.id w)

    abbrev update_loaded : Bytes → ℕ → Option (AppData Json) → World → Handled host ℕ
    update_loaded id now none w = (w, failed internal_error)
    update_loaded id now (some d) w = updating d id now (find_subscription d.subscriptions id) w

    -- `handleUpdateSubscription`
    unfoldable pub handle_update_subscription : ℕ → Option Bytes → World → Handled host ℕ
    handle_update_subscription now none w = (w, failed bad_request)
    handle_update_subscription now (some id) w = update_loaded id now (load_data w) w

  -- `handleDeleteSubscription`
  unfoldable pub handle_delete_subscription : Option Bytes → World → Handled host (Unit {0})
  handle_delete_subscription none w = (w, failed bad_request)
  handle_delete_subscription (some id) w =
      changed (load_data w) (λ d. (delete_subscription d id, tt)) w

  -- The loop of `handleImportNodes`, which tries empty lines too.
  unfoldable pub import_lines : List Bytes → List (Node Json)
  import_lines [] = []
  import_lines (line ∷ rest) =
      let nodes = import_lines rest in
      with_node
        (parse_node_uri codec.library (codec.clock (length rest)) (text "manual") (trim_space line))
        nodes

  -- `handleImportNodes`
  unfoldable pub handle_import_nodes : Option Bytes → World → Handled host ℕ
  unfolding import_lines
  handle_import_nodes none w = (w, failed bad_request)
  handle_import_nodes (some body) w =
      let nodes = import_lines (split 10 body) in
      changed (load_data w) (λ d. (with_nodes d (d.nodes ++ nodes), length nodes)) w

  -- `handleDeleteNode`
  unfoldable pub handle_delete_node : Option Bytes → World → Handled host (Unit {0})
  handle_delete_node none w = (w, failed bad_request)
  handle_delete_node (some tag) w = changed (load_data w) (λ d. (delete_node d tag, tt)) w

  -- `handleSetActiveNode`
  unfoldable pub handle_set_active_node : Option Bytes → World → Handled host Bytes
  handle_set_active_node none w = (w, failed bad_request)
  handle_set_active_node (some tag) w = changed (load_data w) (λ d. (set_active d tag, tag)) w

  -- `handleSaveInbounds`
  unfoldable pub handle_save_inbounds :
      Method → Option (List CustomInbound) → World → Handled host (Unit {0})
  handle_save_inbounds post none w = (w, failed bad_request)
  handle_save_inbounds post (some inbounds) w =
      changed (load_data w) (λ d. (save_inbounds d inbounds, tt)) w
  handle_save_inbounds _ body w = (w, failed not_allowed)

  -- `handleSaveRouting`
  unfoldable pub handle_save_routing :
      Method → Option (Bytes × List RoutingRule) → World → Handled host (Unit {0})
  handle_save_routing post none w = (w, failed bad_request)
  handle_save_routing post (some (strategy, rules)) w =
      changed (load_data w) (λ d. (save_routing d strategy rules, tt)) w
  handle_save_routing _ body w = (w, failed not_allowed)

  -- The first step of `handlePingNodes`, under the lock: the data is loaded.
  abbrev pub ping_begin : World → Option (AppData Json)
  ping_begin w = load_data w

  -- The last step, under the lock again, with what was loaded and the times measured meanwhile.
  unfoldable pub ping_end : AppData Json → Dict ℤ → World → World
  ping_end d results w = save_data (record d { nodes = pinged results d.nodes }) w
