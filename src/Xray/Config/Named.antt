-- ===== src/Xray/Config/Named.antt =====
-- `generateXrayConfig` of cmd/xray-controller/main.go over nodes whose outbounds carry their tags.
use opn_box.Base.{
  ◌≡◌, refl, ◌∙◌, ◌⊎◌, inl, inr, true, false, Bool-cases, some, List, [], ◌∷◌, Bytes, bytes_eq,
  bytes_eq_sound, bytes_eq_self,
}
use mathlib.Core.Path.{subst}
use opn_box.Base.Dict.{Dict, lookup, put, lookup-put}
use opn_box.Text.{text}
use opn_box.Xray.{Node, RoutingRule, AppData}
use opn_box.Xray.Json.{Json, string}
use opn_box.Xray.Store.{HasTag}
use opn_box.Xray.Links.Carried.{IsCarrying}
use opn_box.Xray.Config.{node_map, outbound_of, generate_xray_config}
use opn_box.Xray.Config.Reached.{IsFixed, AllResolved, AllOffered}
use opn_box.Xray.Config.Tags.{generate_xray_config-AllOffered}

abbrev pub AllCarrying : List (Node Json) → Type 0
AllCarrying [] = Unit {0}
AllCarrying (n ∷ ns) = IsCarrying n × AllCarrying ns

-- A rule is off, or it names no tag, a fixed one or that of a node.
abbrev pub IsNamed : List (Node Json) → RoutingRule → Type 0
IsNamed nodes r = (r.enabled ≡ false) ⊎ (IsFixed r.outbound_tag ⊎ HasTag r.outbound_tag nodes)

abbrev pub AllNamed : List (Node Json) → List RoutingRule → Type 0
AllNamed nodes [] = Unit {0}
AllNamed nodes (r ∷ rs) = IsNamed nodes r × AllNamed nodes rs

module _ (tag : Bytes) where
  -- The map has a node at the tag whose outbound carries it.
  abbrev Finds : Dict (Node Json) → Type 0
  Finds m =
      (raw : Dict Json) × (outbound_of string (lookup tag m) ≡ some raw)
      × (lookup (text "tag") raw ≡ some (string tag))

  put_here :
      (n : Node Json) (m : Dict (Node Json)) → IsCarrying n → n.tag ≡ tag → Finds (put n.tag n m)
  put_here n m (raw, has, tagged) e =
      let found : lookup tag (put n.tag n m) ≡ some n =
        lookup-put n.tag tag n m
        ∙ rw (subst (λ t. bytes_eq n.tag t ≡ true) e (bytes_eq_self n.tag)) refl in
      (raw, rw found has, subst (λ t. lookup (text "tag") raw ≡ some (string t)) e tagged)

  put_other :
      (n : Node Json) (m : Dict (Node Json)) → IsCarrying n → Finds m → Finds (put n.tag n m)
  put_other n m c (raw, has, tagged) = elim (Bool-cases (bytes_eq n.tag tag)) [
    | inl e ↦ put_here n m c (bytes_eq_sound n.tag tag e)
    | inr e ↦
        let kept : lookup tag (put n.tag n m) ≡ lookup tag m =
          lookup-put n.tag tag n m ∙ rw e refl in
        (raw, rw kept has, tagged)
  ]

  node_map-Finds :
      (ns : List (Node Json)) (m : Dict (Node Json))
      → AllCarrying ns
      → Finds m
      → Finds (node_map string ns m)
  unfolding node_map
  node_map-Finds [] m c f = f
  node_map-Finds (n ∷ ns) m (c, cs) f = node_map-Finds ns (put n.tag n m) cs (put_other n m c f)

  named-Finds :
      (ns : List (Node Json)) (m : Dict (Node Json))
      → AllCarrying ns
      → HasTag tag ns
      → Finds (node_map string ns m)
  unfolding node_map
  named-Finds [] m c h = absurd h
  named-Finds (n ∷ ns) m (c, cs) (inl e) = node_map-Finds ns (put n.tag n m) cs (put_here n m c e)
  named-Finds (n ∷ ns) m (c, cs) (inr h) = named-Finds ns (put n.tag n m) cs h

named-AllResolved :
    (ns : List (Node Json)) (rs : List RoutingRule)
    → AllCarrying ns
    → AllNamed ns rs
    → AllResolved string (node_map string ns []) rs
named-AllResolved ns [] c h = tt
named-AllResolved ns (r ∷ rs) c (inl off, hs) = (inl off, named-AllResolved ns rs c hs)
named-AllResolved ns (r ∷ rs) c (inr (inl fixed), hs) =
    (inr (inl fixed), named-AllResolved ns rs c hs)
named-AllResolved ns (r ∷ rs) c (inr (inr h), hs) =
    (inr (inr (named-Finds r.outbound_tag ns [] c h)), named-AllResolved ns rs c hs)

-- If every node's outbound carries its tag, and every rule that is on names no tag, a fixed one or that
-- of a node, then every rule of the generated configuration names one of its outbounds.
pub generate_xray_config-IsClosed :
    (d : AppData Json)
    → AllCarrying d.nodes
    → AllNamed d.nodes d.rules
    → AllOffered string
        (generate_xray_config string d).rules
        (generate_xray_config string d).outbounds
generate_xray_config-IsClosed d c h =
    generate_xray_config-AllOffered string d (named-AllResolved d.nodes d.rules c h)
