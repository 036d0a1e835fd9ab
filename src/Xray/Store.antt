-- ===== src/Xray/Store.antt =====
-- The changes of the data of cmd/xray-controller/main.go: which of them keep the active node among the
-- nodes.
use opn_box.Base.{
  ◌≡◌, refl, sym, ◌⊎◌, inl, inr, false, Bool-cases, List, [], ◌∷◌, ◌++◌, Bytes, bytes_eq,
}
use mathlib.Core.Path.{subst}
use opn_box.Xray.{
  AppData, Node, Subscription, or_first, with_nodes, add_subscription, untagged, delete_node,
}

module _ {V : Type 0} where
  abbrev pub HasTag : Bytes → List (Node V) → Type 0
  HasTag tag [] = ⊥
  HasTag tag (n ∷ ns) = (n.tag ≡ tag) ⊎ HasTag tag ns

  -- No node is active, or the active one is among the nodes.
  abbrev pub IsActive : AppData V → Type 0
  IsActive d = (d.active_node_tag ≡ []) ⊎ HasTag d.active_node_tag d.nodes

  append-HasTag : (tag : Bytes) (ns ms : List (Node V)) → HasTag tag ns → HasTag tag (ns ++ ms)
  append-HasTag tag [] ms h = absurd h
  append-HasTag tag (n ∷ ns) ms (inl e) = inl e
  append-HasTag tag (n ∷ ns) ms (inr h) = inr (append-HasTag tag ns ms h)

  or_first-HasTag :
      (tag : Bytes) (ns : List (Node V))
      → (tag ≡ []) ⊎ HasTag tag ns
      → (or_first tag ns ≡ []) ⊎ HasTag (or_first tag ns) ns
  or_first-HasTag [] [] h = inl refl
  or_first-HasTag [] (n ∷ ns) h = inr (inl refl)
  or_first-HasTag (b ∷ tag) ns h = h

  pub with_nodes-IsActive :
      (d : AppData V) (nodes : List (Node V))
      → IsActive d
      → IsActive (with_nodes d (d.nodes ++ nodes))
  unfolding with_nodes
  with_nodes-IsActive d nodes (inl e) = or_first-HasTag d.active_node_tag (d.nodes ++ nodes) (inl e)
  with_nodes-IsActive d nodes (inr h) =
      or_first-HasTag d.active_node_tag (d.nodes ++ nodes)
        (inr (append-HasTag d.active_node_tag d.nodes nodes h))

  pub add_subscription-IsActive :
      (d : AppData V) (sub : Subscription) (nodes : List (Node V))
      → IsActive d
      → IsActive (add_subscription d sub nodes)
  unfolding add_subscription
  add_subscription-IsActive d sub nodes h =
      with_nodes-IsActive (record d { subscriptions = d.subscriptions ++ sub ∷ [] }) nodes h

  untagged-HasTag :
      (tag other : Bytes) (ns : List (Node V))
      → bytes_eq other tag ≡ false
      → HasTag other ns
      → HasTag other (untagged tag ns)
  unfolding untagged
  untagged-HasTag tag other [] ne h = absurd h
  untagged-HasTag tag other (n ∷ ns) ne (inl e) =
      rw (subst (λ t. bytes_eq t tag ≡ false) (sym e) ne) (inl e)
  untagged-HasTag tag other (n ∷ ns) ne (inr h) =
      let rest = untagged-HasTag tag other ns ne h in
      elim (Bool-cases (bytes_eq n.tag tag)) [
        | inl same ↦ rw same rest
        | inr differs ↦ rw differs (inr rest)
      ]

  pub delete_node-IsActive :
      (d : AppData V) (tag : Bytes) → IsActive d → IsActive (delete_node d tag)
  unfolding delete_node
  delete_node-IsActive d tag h = elim (Bool-cases (bytes_eq d.active_node_tag tag)) [
    | inl same ↦ rw same (or_first-HasTag [] (untagged tag d.nodes) (inl refl))
    | inr differs ↦ elim h [
      | inl e ↦ rw differs (inl e)
      | inr m ↦ rw differs (inr (untagged-HasTag tag d.active_node_tag d.nodes differs m))
    ]
  ]
