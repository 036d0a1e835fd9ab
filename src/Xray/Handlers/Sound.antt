-- ===== src/Xray/Handlers/Sound.antt =====
-- The changes of the data of cmd/xray-controller/main.go that keep it sound.
use opn_box.Base.{◌≡◌, refl, inl, inr, Option, none, some, List, [], ◌∷◌, ◌++◌, Bytes}
use opn_box.Base.Dict.{Dict, lookup}
use opn_box.Base.Integers.{ℤ}
use opn_box.Xray.{
  AppData, Node, Subscription, with_nodes, add_subscription, delete_node, with_ping, pinged,
}
use opn_box.Xray.Json.{Json}
use opn_box.Xray.Config.Named.{AllCarrying}
use opn_box.Xray.Store.{
  HasTag, IsActive, with_nodes-IsActive, add_subscription-IsActive, delete_node-IsActive,
}
use opn_box.Xray.Handlers.Parsed.{append-AllCarrying, untagged-AllCarrying, pinged-AllCarrying}

with_ping-tag : {V : Type 0} (n : Node V) (rtt : Option ℤ) → (with_ping n rtt).tag ≡ n.tag
with_ping-tag n none = refl
with_ping-tag n (some rtt) = refl

pinged-HasTag :
    {V : Type 0} (results : Dict ℤ) (tag : Bytes) (ns : List (Node V))
    → HasTag tag ns
    → HasTag tag (pinged results ns)
unfolding pinged
pinged-HasTag results tag [] h = absurd h
pinged-HasTag results tag (n ∷ ns) (inl e) = inl (rw (with_ping-tag n (lookup n.tag results)) e)
pinged-HasTag results tag (n ∷ ns) (inr h) = inr (pinged-HasTag results tag ns h)

-- The active node is among the nodes, and the nodes' outbounds carry their tags.
abbrev pub IsSound : AppData Json → Type 0
IsSound d = IsActive d × AllCarrying d.nodes

pub pinged-IsSound :
    (results : Dict ℤ) (d : AppData Json)
    → IsSound d
    → IsSound (record d { nodes = pinged results d.nodes })
pinged-IsSound results d (inl e, c) = (inl e, pinged-AllCarrying results d.nodes c)
pinged-IsSound results d (inr h, c) =
    (inr (pinged-HasTag results d.active_node_tag d.nodes h), pinged-AllCarrying results d.nodes c)

pub with_nodes-IsSound :
    (d : AppData Json) (nodes : List (Node Json))
    → AllCarrying nodes
    → IsSound d
    → IsSound (with_nodes d (d.nodes ++ nodes))
unfolding with_nodes
with_nodes-IsSound d nodes c (active, cs) =
    (with_nodes-IsActive d nodes active, append-AllCarrying d.nodes nodes cs c)

pub add_subscription-IsSound :
    (d : AppData Json) (sub : Subscription) (nodes : List (Node Json))
    → AllCarrying nodes
    → IsSound d
    → IsSound (add_subscription d sub nodes)
unfolding add_subscription with_nodes
add_subscription-IsSound d sub nodes c (active, cs) =
    (add_subscription-IsActive d sub nodes active, append-AllCarrying d.nodes nodes cs c)

pub delete_node-IsSound : (d : AppData Json) (tag : Bytes) → IsSound d → IsSound (delete_node d tag)
unfolding delete_node
delete_node-IsSound d tag (active, cs) =
    (delete_node-IsActive d tag active, untagged-AllCarrying tag d.nodes cs)
