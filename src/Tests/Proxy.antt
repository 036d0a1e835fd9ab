-- ===== src/Tests/Proxy.antt =====
-- cmd/xray-controller/main.go with one node, whose data is written as one of two letters.
use opn_box.Base.{
  ◌≡◌, refl, sym, inl, inr, true, Option, none, some, List, [], ◌∷◌, ◌++◌, Bytes, length, bytes_eq,
  ◌==◌, if◌then◌else◌,
}
use opn_box.Base.Dict.{Dict, lookup, put, remove}
use opn_box.Base.Integers.{pos}
use opn_box.Text.{text, trim_space}
use opn_box.Text.Lines.{split, pieces}
use opn_box.Text.Numbers.{atoi}
use opn_box.Web.{answered, pgrep, restart_twice, pid_of}
use opn_box.Web.Process.{process_id}
use opn_box.Xray.{
  AppData, Node, RoutingRule, delete_node, delete_subscription, nodes_without, untagged,
}
use opn_box.Xray.Json.{Json, string}
use opn_box.Xray.Links.{Library}
use opn_box.Xray.Config.{
  freedom, blackhole, dns, proxy_default, node_map, rule_outbounds, generate_xray_config,
}
use opn_box.Xray.Config.Reached.{AllOffered}
use opn_box.Xray.Config.Named.{AllCarrying, generate_xray_config-IsClosed}
use opn_box.Xray.Config.Fallback.{delete_subscription-IsDirect}
use opn_box.Xray.Handlers.{Flags, Part, Codec, load_data, save_data, handle_delete_node}
use opn_box.Xray.Handlers.Sound.{IsSound}
use opn_box.Xray.Handlers.Active.{deleting_node, subscribing, here, later, Holds, Reach-IsSound}
use opn_box.Xray.Handlers.Service.{Applied, write_parts, handle_apply_config}
use opn_box.Xray.Handlers.Apply.{IsApplied, handle_apply_config-IsApplied}
use mathlib.Core.List.Perm
use opn_box.Xray.Handlers.Saved.{IsKept}
use opn_box.Tracker.Orders.{IsRange}
use opn_box.Xray.Handlers.Active
use opn_box.Web.{post}
use opn_box.Xray.{Subscription, add_subscription}
use opn_box.Xray.Handlers.{handle_add_subscription, nodes_in, parse_lines, fetch_subscription_nodes}
use opn_box.Tests.Files.{disk, disk-KeepsFiles}

abbrev only_node : Node Json
only_node = record {
  id = text "node-7";
  tag = text "node-7";
  name = text "home";
  protocol = text "trojan";
  address = text "192.0.2.1";
  port = pos 443;
  network = text "tcp";
  security = text "tls";
  sni = [];
  path = [];
  xhttp_mode = [];
  sub_id = text "sub-1";
  ping_rtt = pos 0;
  raw_outbound =
      some ((text "tag", string (text "node-7")) ∷ (text "protocol", string (text "trojan")) ∷ []);
}

abbrev node_rule : RoutingRule
node_rule = record {
  id = text "r1";
  kind = text "domain";
  values = text "domain:example.org" ∷ [];
  outbound_tag = text "node-7";
  enabled = true;
  comment = [];
}

abbrev one_node : AppData Json
one_node = record {
  active_node_tag = text "node-7";
  subscriptions = [];
  nodes = only_node ∷ [];
  inbounds = [];
  rules = node_rule ∷ [];
  domain_strategy = [];
}

abbrev no_node : AppData Json
no_node = record one_node { active_node_tag = []; nodes = [] }

one_node-AllCarrying : AllCarrying one_node.nodes
unfolding lookup bytes_eq
one_node-AllCarrying = ((_, refl, refl), tt)

generate_xray_config-IsClosed_example :
    AllOffered string
      (generate_xray_config string one_node).rules
      (generate_xray_config string one_node).outbounds
generate_xray_config-IsClosed_example =
    generate_xray_config-IsClosed one_node one_node-AllCarrying (inr (inr (inl refl)), tt)

delete_subscription-IsDirect_example :
    ((delete_subscription one_node (text "sub-1")).active_node_tag ≡ one_node.active_node_tag)
    × ((generate_xray_config string (delete_subscription one_node (text "sub-1"))).outbounds
        ≡ freedom proxy_default
          ∷ (rule_outbounds string
                (node_map string (nodes_without (text "sub-1") one_node.nodes) [])
                one_node.rules
                (proxy_default ∷ [])
              ++ (freedom (text "direct") ∷ blackhole (text "block") ∷ dns (text "dns-out") ∷ [])))
delete_subscription-IsDirect_example =
    delete_subscription-IsDirect string one_node (text "sub-1") ((λ e. refl), tt)

abbrev no_library : Library
no_library = record {
  parse_url = λ s. none;
  split_host_port = λ s. none;
  decode_std = λ s. none;
  decode_raw_url = λ s. none;
  decode_json = λ s. none;
}

abbrev empty_list : Subscription
empty_list = record {
  id = text "sub-2";
  name = text "list";
  url = text "u";
  last_update = 5;
  node_count = 0;
}

abbrev with_list : AppData Json
with_list = record no_node { subscriptions = empty_list ∷ [] }

abbrev letter_of : AppData Json → Option Bytes
letter_of d =
    if length d.nodes == 0
    then (if length d.subscriptions == 0 then some (text "0") else some (text "2"))
    else some (text "1")

abbrev data_of : Bytes → Option (AppData Json)
data_of s =
    if bytes_eq s (text "0")
    then some no_node
    else if bytes_eq s (text "2")
    then some with_list
    else some one_node

abbrev letters : Codec
letters = record {
  unmarshal = data_of;
  marshal = letter_of;
  marshal_part = λ part cfg. some (text "{}");
  library = no_library;
  clock = λ n. n;
}

abbrev paths : Flags
paths = record {
  conf_dir = text "/x";
  data_file = text "/x/data";
  log_file = text "/l/xray.log";
  rc_service = text "xray";
  xray_bin = text "/b/xray";
}

abbrev with_one : Dict Bytes
with_one = (text "/x/data", text "1") ∷ []

abbrev fetch_empty : Dict Bytes → Bytes → Dict Bytes × Option Bytes
fetch_empty w url = (w, some [])

loaded : load_data disk paths letters with_one ≡ some one_node
unfolding load_data lookup bytes_eq
loaded = refl

deletion_kept :
    (d : AppData Json)
    → load_data disk paths letters with_one ≡ some d
    → (out : Bytes) × (letter_of (delete_node d (text "node-7")) ≡ some out)
      × (disk.read (put (text "/x/data") out with_one) (text "/x/data") ≡ some out)
      × (data_of out ≡ some (delete_node d (text "node-7")))
unfolding delete_node untagged bytes_eq lookup put
deletion_kept d e = let same : one_node ≡ d = cc (loaded, e) in rw (sym same) at_one_node
  where
    at_one_node :
        (out : Bytes) × (letter_of (delete_node one_node (text "node-7")) ≡ some out)
        × (disk.read (put (text "/x/data") out with_one) (text "/x/data") ≡ some out)
        × (data_of out ≡ some (delete_node one_node (text "node-7")))
    at_one_node = (text "0", refl, refl, refl)

with_one-Holds : Holds disk paths letters fetch_empty with_one
with_one-Holds d e =
    let same : one_node ≡ d = cc (loaded, e) in rw (sym same) (inr (inl refl), one_node-AllCarrying)

after_deletion :
    load_data disk paths letters
      (handle_delete_node disk paths letters (some (text "node-7")) with_one).0
    ≡ some no_node
unfolding load_data handle_delete_node save_data delete_node untagged bytes_eq lookup put
after_deletion = refl

abbrev deleted : Dict Bytes
deleted = (handle_delete_node disk paths letters (some (text "node-7")) with_one).0

no_default : Option (AppData Json) → Bytes
no_default d = []

fetched : nodes_in disk paths letters (text "sub-2") (some []) ≡ some []
unfolding parse_lines split pieces trim_space
fetched = refl

list-IsKept : IsKept disk paths letters (add_subscription no_node empty_list []) deleted
unfolding add_subscription handle_delete_node save_data load_data delete_node untagged bytes_eq
    lookup put
list-IsKept = (text "2", refl, refl, refl)

addition_kept :
    Active.Subscribes disk paths letters fetch_empty
      (text "sub-2")
      no_default
      5
      (text "list")
      (text "u")
      deleted
addition_kept d nodes e found =
    let same : no_node ≡ d = cc (after_deletion, e) in
    let none : [] ≡ nodes = cc (fetched, found) in rw (sym same, sym none) list-IsKept

after_addition :
    load_data disk paths letters
      (handle_add_subscription disk paths letters fetch_empty
        (text "sub-2")
        no_default
        5
        post
        (some (text "list", text "u"))
        deleted).0
    ≡ some with_list
unfolding load_data handle_add_subscription handle_delete_node save_data delete_node untagged
    bytes_eq lookup put parse_lines split pieces trim_space add_subscription
    fetch_subscription_nodes
after_addition = refl

-- The node is deleted, and a subscription is added whose list is empty.
Reach-IsSound_example : IsSound with_list
Reach-IsSound_example =
    Reach-IsSound disk paths letters fetch_empty (λ w url. refl) with_one
      (handle_add_subscription disk paths letters fetch_empty (text "sub-2") no_default 5 post
        (some (text "list", text "u")) deleted).0
      (later (later here (deleting_node (text "node-7") deletion_kept))
        (subscribing (text "sub-2") no_default 5 (text "list") (text "u") addition_kept))
      with_one-Holds with_list after_addition

-- A range that begins with the second entry.
abbrev rotated : List Part → List Part
rotated [] = []
rotated (p ∷ []) = p ∷ []
rotated (p ∷ q ∷ ps) = q ∷ p ∷ ps

rotated-IsRange : IsRange rotated
rotated-IsRange [] = Perm.rfl
rotated-IsRange (p ∷ []) = Perm.rfl
rotated-IsRange (p ∷ q ∷ ps) = Perm.swap p q ps

abbrev success : Applied
success = record { success = true; output = []; pid = 0 }

abbrev after_apply : Dict Bytes
after_apply = (handle_apply_config disk paths letters rotated with_one).0

apply_run :
    handle_apply_config disk paths letters rotated with_one ≡ (after_apply, answered success)
unfolding handle_apply_config load_data lookup bytes_eq write_parts process_id pgrep pid_of atoi
    split pieces trim_space restart_twice remove put
apply_run = refl

handle_apply_config-IsApplied_example :
    (d : AppData Json) × (load_data disk paths letters with_one ≡ some d)
    × IsApplied disk paths letters rotated d with_one
handle_apply_config-IsApplied_example =
    handle_apply_config-IsApplied disk paths letters disk-KeepsFiles rotated rotated-IsRange
      with_one after_apply success apply_run refl
