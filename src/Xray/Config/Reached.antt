-- ===== src/Xray/Config/Reached.antt =====
-- `generateXrayConfig` of cmd/xray-controller/main.go: the loop that adds the nodes of rules, by
-- the tags that it reaches.
use opn_box.Base.{
  ◌≡◌, refl, sym, ap, ◌⊎◌, inl, inr, Bool, true, false, Bool-cases, Option, none, some, List, [],
  ◌∷◌, Bytes, length, ◌==◌, bytes_eq, bytes_eq_iff, bytes_eq_sound, arith,
}
use mathlib.Core.Path.{subst}
use opn_box.Base.Dict.{Dict, lookup}
use opn_box.Text.{text}
use opn_box.Xray.{Node, RoutingRule}
use opn_box.Xray.Config.{
  Outbound, carried, freedom, blackhole, dns, XrayRule, proxy_default, member, is_wanted, found_for,
  wanted, extended, with_outbound, rule_outbounds,
}

abbrev pub IsFixed : Bytes → Type 0
IsFixed tag = (tag ≡ []) ⊎ ((tag ≡ text "direct") ⊎ ((tag ≡ text "block") ⊎ (tag ≡ proxy_default)))

pub empty_tag : (tag : Bytes) → (length tag == 0) ≡ true → tag ≡ []
empty_tag [] h = refl
empty_tag (b ∷ tag) h = absurd (ground arith)

module _ {V : Type 0} (str : Bytes → V) where
  abbrev pub tag_of : Outbound V → Option V
  tag_of (carried raw) = lookup (text "tag") raw
  tag_of (freedom tag) = some (str tag)
  tag_of (blackhole tag) = some (str tag)
  tag_of (dns tag) = some (str tag)

  abbrev pub IsOffered : Bytes → List (Outbound V) → Type 0
  IsOffered tag [] = ⊥
  IsOffered tag (o ∷ os) = (tag_of o ≡ some (str tag)) ⊎ IsOffered tag os

  abbrev pub AllOffered : List XrayRule → List (Outbound V) → Type 0
  AllOffered [] os = Unit {0}
  AllOffered (r ∷ rs) os = IsOffered r.outbound_tag os × AllOffered rs os

  -- A rule is off, or it names no tag or one of the fixed ones, or a node whose outbound has its tag.
  abbrev pub IsResolved : Dict (Node V) → RoutingRule → Type 0
  IsResolved nodes r =
      (r.enabled ≡ false)
      ⊎ (IsFixed r.outbound_tag
          ⊎ (raw : Dict V) × (found_for str nodes r ≡ some raw)
            × (lookup (text "tag") raw ≡ some (str r.outbound_tag)))

  abbrev pub AllResolved : Dict (Node V) → List RoutingRule → Type 0
  AllResolved nodes [] = Unit {0}
  AllResolved nodes (r ∷ rs) = IsResolved nodes r × AllResolved nodes rs

  wanted_or :
      (r : RoutingRule) (added : List Bytes)
      → r.enabled ≡ true
      → (is_wanted str r added ≡ true)
        ⊎ (IsFixed r.outbound_tag ⊎ (member r.outbound_tag added ≡ true))
  wanted_or r added on = elim (Bool-cases (length r.outbound_tag == 0)) [
    | inl e ↦ inr (inl (inl (empty_tag r.outbound_tag e)))
    | inr e ↦ elim (Bool-cases (bytes_eq r.outbound_tag (text "direct"))) [
      | inl d ↦ inr (inl (inr (inl (bytes_eq_sound r.outbound_tag (text "direct") d))))
      | inr d ↦ elim (Bool-cases (bytes_eq r.outbound_tag (text "block"))) [
        | inl b ↦ inr (inl (inr (inr (inl (bytes_eq_sound r.outbound_tag (text "block") b)))))
        | inr b ↦ elim (Bool-cases (bytes_eq r.outbound_tag proxy_default)) [
          | inl p ↦ inr (inl (inr (inr (inr (bytes_eq_sound r.outbound_tag proxy_default p)))))
          | inr p ↦ elim (Bool-cases (member r.outbound_tag added)) [
            | inl m ↦ inr (inr m)
            | inr m ↦ inl (rw (on, e, d, b, p, m) refl)
          ]
        ]
      ]
    ]
  ]

  not_fixed :
      (r : RoutingRule) (added : List Bytes)
      → is_wanted str r added ≡ true
      → IsFixed r.outbound_tag
      → ⊥
  not_fixed r added h (inl e) = ground (arith, h, e, ap (λ (t : Bytes). length t) e)
  not_fixed r added h (inr (inl e)) =
      ground (arith, h, bytes_eq_iff r.outbound_tag (text "direct"), e)
  not_fixed r added h (inr (inr (inl e))) =
      ground (arith, h, bytes_eq_iff r.outbound_tag (text "block"), e)
  not_fixed r added h (inr (inr (inr e))) =
      ground (arith, h, bytes_eq_iff r.outbound_tag proxy_default, e)

  wanted-eq-some :
      (b : Bool) (found : Option (Dict V)) (raw : Dict V)
      → wanted str b found ≡ some raw
      → (b ≡ true) × (found ≡ some raw)
  wanted-eq-some true found raw h = (refl, h)
  wanted-eq-some false found raw h = cc

  wanted_tag :
      (nodes : Dict (Node V)) (r : RoutingRule) (added : List Bytes) (raw : Dict V)
      → IsResolved nodes r
      → wanted str (is_wanted str r added) (found_for str nodes r) ≡ some raw
      → lookup (text "tag") raw ≡ some (str r.outbound_tag)
  wanted_tag nodes r added raw v h =
      let (on, found) = wanted-eq-some (is_wanted str r added) (found_for str nodes r) raw h in
      elim v [
        | inl off ↦ absurd (ground (arith, on, off))
        | inr (inl fixed) ↦ absurd (not_fixed r added on fixed)
        | inr (inr (raw', found', tagged)) ↦
            let same : raw' ≡ raw = cc (found, found') in
            subst (λ d. lookup (text "tag") d ≡ some (str r.outbound_tag)) same tagged
      ]

  module _ (nodes : Dict (Node V)) (tag : Bytes) where
    abbrev pub Reached : List Bytes → List (Outbound V) → Type 0
    Reached added os = IsFixed tag ⊎ ((member tag added ≡ true) ⊎ IsOffered tag os)

    -- Going on behind a rule loses no tag: what it adds to the tags it adds to the outbounds.
    behind :
        (r : RoutingRule) (added : List Bytes) (found : Option (Dict V)) (os : List (Outbound V))
        → ((raw : Dict V) → found ≡ some raw → lookup (text "tag") raw ≡ some (str r.outbound_tag))
        → Reached (extended str r.outbound_tag found added) os
        → Reached added (with_outbound str found os)
    behind r added none os h k = k
    behind r added (some raw) os h (inl f) = inl f
    behind r added (some raw) os h (inr (inr o)) = inr (inr (inr o))
    behind r added (some raw) os h (inr (inl m)) = elim (Bool-cases (bytes_eq r.outbound_tag tag)) [
      | inl e ↦ inr (
          inr (
            inl (
              subst (λ t. lookup (text "tag") raw ≡ some (str t))
                (bytes_eq_sound r.outbound_tag tag e) (h raw refl))))
      | inr e ↦ inr (inl (ground (arith, e, m)))
    ]

    -- The first rule that names the tag.
    here :
        (r : RoutingRule) (added : List Bytes) (found : Option (Dict V)) (os : List (Outbound V))
        → r.outbound_tag ≡ tag
        → (wanted_now : is_wanted str r added ≡ true)
        → found ≡ wanted str (is_wanted str r added) (found_for str nodes r)
        → IsResolved nodes r
        → r.enabled ≡ true
        → Reached added (with_outbound str found os)
    here r added (some raw) os e w f v on = inr (
        inr (
          inl (
            subst (λ t. lookup (text "tag") raw ≡ some (str t)) e
              (wanted_tag nodes r added raw v (sym f)))))
    here r added none os e w f v on = elim v [
      | inl off ↦ absurd (ground (arith, on, off))
      | inr (inl fixed) ↦ inl (subst IsFixed e fixed)
      | inr (inr (raw, found, tagged)) ↦
          absurd (cc (f, ap (λ b. wanted str b (found_for str nodes r)) w, found))
    ]

    -- The tag is that of a rule that is on.
    abbrev pub Names : List RoutingRule → Type 0
    Names [] = ⊥
    Names (r ∷ rs) = ((r.outbound_tag ≡ tag) × (r.enabled ≡ true)) ⊎ Names rs

    pub named-Reached :
        (rs : List RoutingRule) (added : List Bytes)
        → AllResolved nodes rs
        → Names rs
        → Reached added (rule_outbounds str nodes rs added)
    unfolding rule_outbounds
    named-Reached [] added v h = absurd h
    named-Reached (r ∷ rs) added v (inr later) =
        let found = wanted str (is_wanted str r added) (found_for str nodes r) in
        behind r added found (rule_outbounds str nodes rs (extended str r.outbound_tag found added))
          (λ raw e. wanted_tag nodes r added raw v.0 e)
          (named-Reached rs (extended str r.outbound_tag found added) v.1 later)
    named-Reached (r ∷ rs) added v (inl (e, on)) =
        let found = wanted str (is_wanted str r added) (found_for str nodes r) in
        let os = rule_outbounds str nodes rs (extended str r.outbound_tag found added) in
        elim (wanted_or r added on) [
          | inl w ↦ here r added found os e w refl v.0 on
          | inr (inl fixed) ↦ inl (subst IsFixed e fixed)
          | inr (inr m) ↦ inr (inl (subst (λ t. member t added ≡ true) e m))
        ]
