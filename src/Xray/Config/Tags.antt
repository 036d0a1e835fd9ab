-- ===== src/Xray/Config/Tags.antt =====
-- `generateXrayConfig` of cmd/xray-controller/main.go: the outbounds that the rules name.
use opn_box.Base.{
  ◌≡◌, refl, sym, ◌∙◌, inl, inr, Bool-cases, Option, none, some, List, [], ◌∷◌, ◌++◌, Bytes, length,
  ◌==◌, bytes_eq_sound, bytes_eq_self, arith,
}
use mathlib.Core.Path.{subst}
use opn_box.Base.Dict.{Dict, lookup-put}
use opn_box.Text.{text}
use opn_box.Xray.{RoutingRule, AppData}
use opn_box.Xray.Config.{
  Outbound, tcp_and_udp, XrayRule, proxy_default, tag_or_default, is_routed, user_rules, node_map,
  default_outbound, rule_outbounds, outbounds_of, rules_of, generate_xray_config,
}
use opn_box.Xray.Config.Reached.{
  IsFixed, empty_tag, tag_of, IsOffered, AllOffered, AllResolved, Names, named-Reached,
}

module _ {V : Type 0} (str : Bytes → V) where
  IsOffered-left :
      (tag : Bytes) (os ps : List (Outbound V))
      → IsOffered str tag os
      → IsOffered str tag (os ++ ps)
  IsOffered-left tag [] ps h = absurd h
  IsOffered-left tag (o ∷ os) ps (inl e) = inl e
  IsOffered-left tag (o ∷ os) ps (inr h) = inr (IsOffered-left tag os ps h)

  IsOffered-right :
      (tag : Bytes) (os ps : List (Outbound V))
      → IsOffered str tag ps
      → IsOffered str tag (os ++ ps)
  IsOffered-right tag [] ps h = h
  IsOffered-right tag (o ∷ os) ps h = inr (IsOffered-right tag os ps h)

  default_tag :
      (found : Option (Dict V)) → tag_of str (default_outbound str found) ≡ some (str proxy_default)
  default_tag none = refl
  default_tag (some raw) =
      lookup-put (text "tag") (text "tag") (str proxy_default) raw
      ∙ rw (bytes_eq_self (text "tag")) refl

  module _ (d : AppData V) where
    fixed-IsOffered :
        (tag : Bytes) → IsFixed tag → IsOffered str (tag_or_default tag) (outbounds_of str d)
    unfolding outbounds_of
    fixed-IsOffered tag (inl e) =
        subst (λ t. IsOffered str (tag_or_default t) (outbounds_of str d)) (sym e)
          (inl (default_tag _))
    fixed-IsOffered tag (inr (inl e)) =
        subst (λ t. IsOffered str (tag_or_default t) (outbounds_of str d)) (sym e)
          (inr (
            IsOffered-right (text "direct")
              (rule_outbounds str (node_map str d.nodes []) d.rules (proxy_default ∷ [])) _
              (inl refl)))
    fixed-IsOffered tag (inr (inr (inl e))) =
        subst (λ t. IsOffered str (tag_or_default t) (outbounds_of str d)) (sym e)
          (inr (
            IsOffered-right (text "block")
              (rule_outbounds str (node_map str d.nodes []) d.rules (proxy_default ∷ [])) _
              (inr (inl refl))))
    fixed-IsOffered tag (inr (inr (inr e))) =
        subst (λ t. IsOffered str (tag_or_default t) (outbounds_of str d)) (sym e)
          (inl (default_tag _))

    named-IsOffered :
        (tag : Bytes)
        → AllResolved str (node_map str d.nodes []) d.rules
        → Names str (node_map str d.nodes []) tag d.rules
        → IsOffered str (tag_or_default tag) (outbounds_of str d)
    unfolding outbounds_of
    named-IsOffered tag v h =
        let nodes = node_map str d.nodes [] in
        elim (named-Reached str nodes tag d.rules (proxy_default ∷ []) v h) [
          | inl fixed ↦ fixed-IsOffered tag fixed
          | inr (inl m) ↦
              let e : proxy_default ≡ tag = bytes_eq_sound proxy_default tag (ground (arith, m)) in
              fixed-IsOffered tag (inr (inr (inr (sym e))))
          | inr (inr o) ↦ elim (Bool-cases (length tag == 0)) [
            | inl e ↦ fixed-IsOffered tag (inl (empty_tag tag e))
            | inr e ↦
                subst (λ t. IsOffered str t (outbounds_of str d)) (rw e refl)
                  (inr (
                    IsOffered-left tag (rule_outbounds str nodes d.rules (proxy_default ∷ [])) _ o))
          ]
        ]

    user_rules-AllOffered :
        (rs : List RoutingRule)
        → ((tag : Bytes)
            → Names str (node_map str d.nodes []) tag rs
            → IsOffered str (tag_or_default tag) (outbounds_of str d))
        → AllOffered str (user_rules rs) (outbounds_of str d)
    unfolding user_rules
    user_rules-AllOffered [] k = tt
    user_rules-AllOffered (r ∷ rs) k =
        let rest = user_rules-AllOffered rs (λ tag h. k tag (inr h)) in
        elim (Bool-cases (is_routed r)) [
          | inl e ↦ rw e (k r.outbound_tag (inl (refl, ground (arith, e))), rest)
          | inr e ↦ rw e rest
        ]

    last-AllOffered :
        (rs : List XrayRule)
        → AllOffered str rs (outbounds_of str d)
        → (r : XrayRule) → IsOffered str r.outbound_tag (outbounds_of str d)
        → AllOffered str (rs ++ r ∷ []) (outbounds_of str d)
    last-AllOffered [] h r o = (o, tt)
    last-AllOffered (x ∷ rs) h r o = (h.0, last-AllOffered rs h.1 r o)

  -- If every rule that is on names no tag, a fixed one or a node whose outbound carries its tag, then
  -- every rule of the generated configuration names one of its outbounds.
  pub generate_xray_config-AllOffered :
      (d : AppData V)
      → AllResolved str (node_map str d.nodes []) d.rules
      → AllOffered str (generate_xray_config str d).rules (generate_xray_config str d).outbounds
  unfolding generate_xray_config rules_of outbounds_of
  generate_xray_config-AllOffered d v =
      let outs = rule_outbounds str (node_map str d.nodes []) d.rules (proxy_default ∷ []) in
      (
        inr (IsOffered-right (text "dns-out") outs _ (inr (inr (inl refl)))),
        last-AllOffered d (user_rules d.rules)
            (user_rules-AllOffered d d.rules (λ tag h. named-IsOffered d tag v h))
            (record { target = tcp_and_udp; outbound_tag = proxy_default }) (inl (default_tag _)),
      )
