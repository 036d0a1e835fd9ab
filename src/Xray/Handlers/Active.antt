-- ===== src/Xray/Handlers/Active.antt =====
-- cmd/xray-controller/main.go: the requests that keep the data file sound.
use opn_box.Base.{ℕ, ◌≡◌, refl, sym, ◌∙◌, Option, none, some, List, [], ◌∷◌, ◌++◌, Bytes, length}
use opn_box.Base.Dict.{Dict}
use opn_box.Base.Integers.{ℤ}
use opn_box.Text.Lines.{split}
use opn_box.Web.{post}
use opn_box.Controller.{Host}
use opn_box.Xray.{
  AppData, Node, Subscription, CustomInbound, RoutingRule, with_nodes, add_subscription,
  delete_node, save_inbounds, save_routing, pinged,
}
use opn_box.Xray.Json.{Json}
use opn_box.Xray.Links.Carried.{Every}
use opn_box.Xray.Config.Named.{AllCarrying}
use opn_box.Xray.Handlers.{
  Flags, Codec, load_data, save_data, changed, import_lines, handle_add_subscription,
  handle_import_nodes, handle_delete_node, handle_save_inbounds, handle_save_routing, ping_end,
  subscribed, adding, fetch_subscription_nodes, nodes_in, named,
}
use opn_box.Xray.Handlers.Parsed.{parse_lines-AllCarrying, import_lines-AllCarrying}
use opn_box.Xray.Handlers.Saved.{IsKept, load_data-save_data}
use opn_box.Xray.Handlers.Sound.{
  IsSound, with_nodes-IsSound, add_subscription-IsSound, delete_node-IsSound, pinged-IsSound,
}

module _ (host : Host) (flags : Flags) (codec : Codec)
    (fetch : host.World → Bytes → host.World × Option Bytes) where
  open host use {World}

  -- JSON and the file keep what a request makes of the data that it finds.
  abbrev pub Keeps : (AppData Json → AppData Json) → World → Type 0
  Keeps change w =
      (d : AppData Json)
      → load_data host flags codec w ≡ some d
      → IsKept host flags codec (change d) w

  -- JSON and the file keep the data with the subscription that the request makes and the nodes that
  -- its URL gives.
  abbrev pub Subscribes :
      Bytes → (Option (AppData Json) → Bytes) → ℕ → Bytes → Bytes → World → Type 0
  Subscribes id default now name url w =
      (d : AppData Json) (nodes : List (Node Json))
      → load_data host flags codec w ≡ some d
      → nodes_in host flags codec id (fetch w url).1 ≡ some nodes
      → IsKept host flags codec
          (add_subscription d
            (record {
              id = id;
              name = named host flags codec fetch name (default (some d));
              url = url;
              last_update = now;
              node_count = length nodes;
            })
            nodes)
          (fetch w url).0

  -- Requests whose data is kept: a subscription or nodes are added, a node is deleted, inbounds or rules
  -- are saved, or the nodes are pinged without another request meanwhile.
  pub data Step (w : World) : World → Type 0 where
    subscribing :
        (id : Bytes) (default : Option (AppData Json) → Bytes) (now : ℕ) (name url : Bytes)
        → Subscribes id default now name url w
        → Step w
            (handle_add_subscription host flags codec fetch id default now post
              (some (name, url))
              w).0
    importing :
        (body : Bytes)
        → Keeps (λ d. with_nodes d (d.nodes ++ import_lines host flags codec (split 10 body))) w
        → Step w (handle_import_nodes host flags codec (some body) w).0
    deleting_node :
        (tag : Bytes)
        → Keeps (λ d. delete_node d tag) w
        → Step w (handle_delete_node host flags codec (some tag) w).0
    saving_inbounds :
        (inbounds : List CustomInbound)
        → Keeps (λ d. save_inbounds d inbounds) w
        → Step w (handle_save_inbounds host flags codec post (some inbounds) w).0
    saving_routing :
        (strategy : Bytes) (rules : List RoutingRule)
        → Keeps (λ d. save_routing d strategy rules) w
        → Step w (handle_save_routing host flags codec post (some (strategy, rules)) w).0
    pinging :
        (d : AppData Json) (results : Dict ℤ)
        → load_data host flags codec w ≡ some d
        → IsKept host flags codec (record d { nodes = pinged results d.nodes }) w
        → Step w (ping_end host flags codec d results w)

  pub data Reach (start : World) : World → Type 0 where
    here : Reach start start
    later : {w w' : World} → Reach start w → Step w w' → Reach start w'

  -- The data, if it can be loaded, is sound.
  abbrev pub Holds : World → Type 0
  Holds w = (d : AppData Json) → load_data host flags codec w ≡ some d → IsSound d

  -- A fetch of a URL leaves the data alone.
  abbrev pub IsQuiet : Type 0
  IsQuiet =
      (w : World) (url : Bytes)
      → load_data host flags codec (fetch w url).0 ≡ load_data host flags codec w

  saved-Holds :
      (d : AppData Json) (w : World)
      → IsKept host flags codec d w
      → IsSound d
      → Holds (save_data host flags codec d w)
  saved-Holds d w kept h d' e =
      let same : d ≡ d' = cc (load_data-save_data host flags codec d w kept, e) in rw (sym same) h

  changed-Holds :
      {A : Type 0} (found : Option (AppData Json)) (change : AppData Json → AppData Json × A)
      (w : World)
      → load_data host flags codec w ≡ found
      → Keeps (λ d. (change d).0) w
      → ((d : AppData Json) → IsSound d → IsSound (change d).0)
      → Holds w
      → Holds (changed host flags codec found change w).0
  changed-Holds none change w e kept sound h = h
  changed-Holds (some d) change w e kept sound h =
      saved-Holds (change d).0 w (kept d e) (sound d (h d e))

  subscribed-Holds :
      (d : AppData Json) (sub : Subscription) (w : World) (nodes : Option (List (Node Json)))
      → ((ns : List (Node Json))
          → nodes ≡ some ns
          → IsKept host flags codec
              (add_subscription d (record sub { node_count = length ns }) ns)
              w)
      → Every AllCarrying nodes
      → IsSound d
      → Holds w
      → Holds (subscribed host flags codec fetch d sub (w, nodes)).0
  subscribed-Holds d sub w none kept c active h = h
  subscribed-Holds d sub w (some nodes) kept c active h =
      let sub' = record sub { node_count = length nodes } in
      saved-Holds (add_subscription d sub' nodes) w (kept nodes refl)
        (add_subscription-IsSound d sub' nodes c active)

  quiet-Holds :
      (w w' : World)
      → load_data host flags codec w' ≡ load_data host flags codec w
      → Holds w
      → Holds w'
  quiet-Holds w w' e h d e' = h d (sym e ∙ e')

  nodes_in-AllCarrying :
      (id : Bytes) (body : Option Bytes) → Every AllCarrying (nodes_in host flags codec id body)
  nodes_in-AllCarrying id none = tt
  nodes_in-AllCarrying id (some body) = parse_lines-AllCarrying host flags codec id _

  adding-Holds :
      IsQuiet
      → (id name : Bytes) (default : Option (AppData Json) → Bytes) (url : Bytes) (now : ℕ)
        (found : Option (AppData Json)) (w : World)
      → Subscribes id default now name url w
      → load_data host flags codec w ≡ found
      → Holds w
      → Holds (adding host flags codec fetch id name (default found) url now found w).0
  unfolding fetch_subscription_nodes
  adding-Holds quiet id name default url now none w kept e h = h
  adding-Holds quiet id name default url now (some d) w kept e h =
      let (w', body) = fetch w url in
      subscribed-Holds d
        (record {
          id = id;
          name = named host flags codec fetch name (default (some d));
          url = url;
          last_update = now;
          node_count = 0;
        })
        w' (nodes_in host flags codec id body) (λ ns found. kept d ns e found)
        (nodes_in-AllCarrying id body) (h d e) (quiet-Holds w w' (quiet w url) h)

  Step-Holds : IsQuiet → {w w' : World} → Step w w' → Holds w → Holds w'
  unfolding handle_add_subscription handle_import_nodes handle_delete_node handle_save_inbounds
      handle_save_routing ping_end
  Step-Holds quiet (subscribing id default now name [] kept) h = h
  Step-Holds quiet {w = w} (subscribing id default now name (b ∷ url) kept) h =
      adding-Holds quiet id name default (b ∷ url) now (load_data host flags codec w) w kept refl h
  Step-Holds quiet {w = w} (importing body kept) h =
      let nodes = import_lines host flags codec (split 10 body) in
      changed-Holds _ (λ d. (with_nodes d (d.nodes ++ nodes), length nodes)) w refl kept
        (λ d sound.
          with_nodes-IsSound d nodes (import_lines-AllCarrying host flags codec (split 10 body))
            sound)
        h
  Step-Holds quiet {w = w} (deleting_node tag kept) h =
      changed-Holds _ (λ d. (delete_node d tag, tt)) w refl kept
        (λ d sound. delete_node-IsSound d tag sound) h
  Step-Holds quiet {w = w} (saving_inbounds inbounds kept) h =
      changed-Holds _ (λ d. (save_inbounds d inbounds, tt)) w refl kept (λ d sound. sound) h
  Step-Holds quiet {w = w} (saving_routing strategy rules kept) h =
      changed-Holds _ (λ d. (save_routing d strategy rules, tt)) w refl kept (λ d sound. sound) h
  Step-Holds quiet {w = w} (pinging d results e kept) h =
      saved-Holds (record d { nodes = pinged results d.nodes }) w kept
        (pinged-IsSound results d (h d e))

  Reach-Holds : IsQuiet → {start w : World} → Reach start w → Holds start → Holds w
  Reach-Holds quiet here h = h
  Reach-Holds quiet (later r s) h = Step-Holds quiet s (Reach-Holds quiet r h)

  -- If the active node is among the nodes and the nodes' outbounds carry their tags, that is also so
  -- behind requests, in any order, that add subscriptions, import or delete nodes, save inbounds or rules
  -- or ping the nodes without another request meanwhile, where a fetch leaves the data alone and JSON and
  -- the file keep what each of them saves.
  pub Reach-IsSound :
      IsQuiet
      → (start w : World) → Reach start w
      → Holds start
      → (d : AppData Json) → load_data host flags codec w ≡ some d
      → IsSound d
  Reach-IsSound quiet start w r h d e = Reach-Holds quiet r h d e
