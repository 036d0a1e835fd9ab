-- ===== src/Xray/Config/Fallback.antt =====
-- cmd/xray-controller/main.go: what becomes of the traffic of the proxy when its node is deleted with a
-- subscription.
use opn_box.Base.{
  ◌≡◌, refl, ◌∙◌, inl, inr, false, Bool-cases, none, List, [], ◌∷◌, ◌++◌, Bytes, bytes_eq,
  bytes_eq_iff, arith,
}
use opn_box.Base.Dict.{Dict, lookup, put, lookup-put, lookup-nil}
use opn_box.Text.{text}
use opn_box.Xray.{AppData, Node, nodes_without, delete_subscription}
use opn_box.Xray.Config.{
  freedom, blackhole, dns, proxy_default, node_map, rule_outbounds, outbounds_of,
  generate_xray_config,
}

module _ {V : Type 0} (str : Bytes → V) where
  -- Every node with the tag is of the subscription.
  abbrev pub AllOf : Bytes → Bytes → List (Node V) → Type 0
  AllOf id tag [] = Unit {0}
  AllOf id tag (n ∷ ns) = (n.tag ≡ tag → n.sub_id ≡ id) × AllOf id tag ns

  node_map_gone :
      (id tag : Bytes) (ns : List (Node V)) (m : Dict (Node V))
      → AllOf id tag ns
      → lookup tag m ≡ none
      → lookup tag (node_map str (nodes_without id ns) m) ≡ none
  unfolding node_map nodes_without
  node_map_gone id tag [] m all h = h
  node_map_gone id tag (n ∷ ns) m (of, rest) h = elim (Bool-cases (bytes_eq n.sub_id id)) [
    | inl e ↦ rw e (node_map_gone id tag ns m rest h)
    | inr e ↦
        let other : bytes_eq n.tag tag ≡ false =
          ground (arith, bytes_eq_iff n.tag tag, bytes_eq_iff n.sub_id id, of, e) in
        rw e (node_map_gone id tag ns (put n.tag n m) rest (lookup-put n.tag tag n m ∙ rw other h))
  ]

  -- When a subscription is deleted that has all nodes with the active tag, the tag stays active and the
  -- outbound for the proxy's traffic becomes one that sends it directly.
  pub delete_subscription-IsDirect :
      (d : AppData V) (id : Bytes)
      → AllOf id d.active_node_tag d.nodes
      → let d' = delete_subscription d id in
        (d'.active_node_tag ≡ d.active_node_tag)
        × ((generate_xray_config str d').outbounds
            ≡ freedom proxy_default
              ∷ (rule_outbounds str
                    (node_map str (nodes_without id d.nodes) [])
                    d.rules
                    (proxy_default ∷ [])
                  ++ (freedom (text "direct")
                      ∷ blackhole (text "block")
                      ∷ dns (text "dns-out")
                      ∷ [])))
  unfolding delete_subscription generate_xray_config outbounds_of
  delete_subscription-IsDirect d id all =
      let gone = node_map_gone id d.active_node_tag d.nodes [] all (lookup-nil d.active_node_tag) in
      (refl, rw gone refl)
