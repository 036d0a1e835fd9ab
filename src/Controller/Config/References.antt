-- ===== src/Controller/Config/References.antt =====
-- `generateMosdnsConfig` of cmd/mosdns-controller/main.go: mosdns creates the plugins in order, and one
-- may name only those before it.
use opn_box.Base.{
  ◌≡◌, refl, Bool, true, false, ◌⊎◌, inl, inr, List, [], ◌∷◌, ◌++◌, Bytes, if◌then◌else◌, bytes_eq,
}
use opn_box.Text.{text}
use opn_box.Controller.{Settings}
use opn_box.Controller.Config.{
  Tag, forward_remote, forward_local, direct_domain_set, proxy_domain_set, block_domain_set,
  sync_to_pf, Match, qname, has_resp, Exec, plugin, reject, leave, Rule, PluginArgs, forward,
  domain_set, pf_alias, sequence, server, MosdnsPlugin, mode_rules, main_rules, block_rules,
  direct_rules, proxy_rules, all_local, all_remote, plugins_of, nonempty, set_of, alias_args,
}

abbrev pub IsDeclared : Tag → List MosdnsPlugin → Type 0
IsDeclared t [] = ⊥
IsDeclared t (p ∷ ps) = (p.tag ≡ t) ⊎ IsDeclared t ps

module _ (seen : List MosdnsPlugin) where
  abbrev pub MatchesDeclared : List Match → Type 0
  MatchesDeclared [] = Unit {0}
  MatchesDeclared (qname t ∷ ms) = IsDeclared t seen × MatchesDeclared ms
  MatchesDeclared (has_resp ∷ ms) = MatchesDeclared ms

  abbrev pub ExecDeclared : Exec → Type 0
  ExecDeclared (plugin t) = IsDeclared t seen
  ExecDeclared (reject n) = Unit {0}
  ExecDeclared leave = Unit {0}

  abbrev pub RulesDeclared : List Rule → Type 0
  RulesDeclared [] = Unit {0}
  RulesDeclared (r ∷ rs) = MatchesDeclared r.matches × ExecDeclared r.exec × RulesDeclared rs

  -- What a plugin names is declared.
  abbrev pub NamesDeclared : PluginArgs → Type 0
  NamesDeclared (sequence rules) = RulesDeclared rules
  NamesDeclared (server entry listen) = IsDeclared entry seen
  NamesDeclared (forward concurrent upstreams) = Unit {0}
  NamesDeclared (domain_set files) = Unit {0}
  NamesDeclared (pf_alias args) = Unit {0}

  RulesDeclared-append :
      (rs rules : List Rule) → RulesDeclared rs → RulesDeclared rules → RulesDeclared (rs ++ rules)
  RulesDeclared-append [] rules h k = k
  RulesDeclared-append (r ∷ rs) rules h k = (h.0, h.1, RulesDeclared-append rs rules h.2 k)

  either-RulesDeclared :
      (b : Bool) (xs ys : List Rule)
      → RulesDeclared xs
      → RulesDeclared ys
      → RulesDeclared (if b then xs else ys)
  either-RulesDeclared true xs ys h k = h
  either-RulesDeclared false xs ys h k = k

  -- The plugins that a set with files brings, and those that are always there.
  abbrev HasSet : Bool → Tag → Type 0
  HasSet true t = IsDeclared t seen
  HasSet false t = Unit {0}

  module _ (remote : IsDeclared forward_remote seen) (local : IsDeclared forward_local seen)
      (sync : IsDeclared sync_to_pf seen) where
    proxy_rules-Declared : (b : Bool) → HasSet b proxy_domain_set → RulesDeclared (proxy_rules b)
    proxy_rules-Declared true h = ((h, tt), remote, ((h, tt), sync, (tt, tt, tt)))
    proxy_rules-Declared false h = tt

    direct_rules-Declared : (b : Bool) → HasSet b direct_domain_set → RulesDeclared (direct_rules b)
    direct_rules-Declared true h = ((h, tt), local, (tt, tt, tt))
    direct_rules-Declared false h = tt

    block_rules-Declared : (b : Bool) → HasSet b block_domain_set → RulesDeclared (block_rules b)
    block_rules-Declared true h = ((h, tt), tt, (tt, tt, tt))
    block_rules-Declared false h = tt

    all_remote-Declared : RulesDeclared all_remote
    all_remote-Declared = (tt, remote, (tt, sync, tt))

    all_local-Declared : RulesDeclared all_local
    all_local-Declared = (tt, local, tt)

    mode_rules-Declared :
        (s : Settings) (direct proxy : Bool)
        → HasSet direct direct_domain_set
        → HasSet proxy proxy_domain_set
        → RulesDeclared (mode_rules s direct proxy)
    unfolding mode_rules
    mode_rules-Declared s direct proxy d p =
        let default =
          if bytes_eq s.custom_default_route (text "proxy") then all_remote else all_local in
        let default-Declared =
          either-RulesDeclared (bytes_eq s.custom_default_route (text "proxy")) all_remote all_local
            all_remote-Declared all_local-Declared in
        let d' = direct_rules-Declared direct d in
        let p' = proxy_rules-Declared proxy p in
        let black = RulesDeclared-append (proxy_rules proxy) all_local p' all_local-Declared in
        let custom =
          RulesDeclared-append (direct_rules direct) (proxy_rules proxy ++ default) d'
            (RulesDeclared-append (proxy_rules proxy) default p' default-Declared) in
        let white = RulesDeclared-append (direct_rules direct) all_remote d' all_remote-Declared in
        either-RulesDeclared (bytes_eq s.mode (text "blacklist")) (proxy_rules proxy ++ all_local)
          (if bytes_eq s.mode (text "custom")
            then direct_rules direct ++ (proxy_rules proxy ++ default)
            else direct_rules direct ++ all_remote)
          black
          (either-RulesDeclared (bytes_eq s.mode (text "custom"))
            (direct_rules direct ++ (proxy_rules proxy ++ default))
            (direct_rules direct ++ all_remote) custom white)

    main_rules-Declared :
        (s : Settings) (block direct proxy : Bool)
        → HasSet block block_domain_set
        → HasSet direct direct_domain_set
        → HasSet proxy proxy_domain_set
        → RulesDeclared (main_rules s block direct proxy)
    unfolding main_rules
    main_rules-Declared s block direct proxy b d p =
        RulesDeclared-append (block_rules block) (mode_rules s direct proxy)
          (block_rules-Declared block b) (mode_rules-Declared s direct proxy d p)

-- Every plugin names only those before it; `seen` are these, the last one first.
abbrev pub IsClosed : List MosdnsPlugin → List MosdnsPlugin → Type 0
IsClosed seen [] = Unit {0}
IsClosed seen (p ∷ ps) = NamesDeclared seen p.args × IsClosed (p ∷ seen) ps

abbrev Extends : List MosdnsPlugin → List MosdnsPlugin → Type 0
Extends seen later = (t : Tag) → IsDeclared t seen → IsDeclared t later

HasSet-Extends :
    (seen later : List MosdnsPlugin) (b : Bool) (t : Tag)
    → Extends seen later
    → HasSet seen b t
    → HasSet later b t
HasSet-Extends seen later true t e h = e t h
HasSet-Extends seen later false t e h = tt

-- Behind a set it is enough to go on from any plugins that declare it if it has files.
set_of-IsClosed :
    (seen : List MosdnsPlugin) (tag : Tag) (files : List Bytes) (rest : List MosdnsPlugin)
    → ((later : List MosdnsPlugin)
        → Extends seen later
        → HasSet later (nonempty files) tag
        → IsClosed later rest)
    → IsClosed seen (set_of tag files ++ rest)
set_of-IsClosed seen tag [] rest k = k seen (λ t h. h) tt
set_of-IsClosed seen tag (file ∷ files) rest k =
    let p : MosdnsPlugin = record { tag = tag; args = domain_set (file ∷ files) } in
    (tt, k (p ∷ seen) (λ t h. inr h) (inl refl))

-- With any settings and any rule files, each plugin of the generated configuration names only plugins
-- that stand before it: the sets and the plugins that the rules of the sequence use, and the sequence
-- that the servers use.
pub plugins_of-IsClosed :
    (s : Settings) (direct_files proxy_files block_files : List Bytes)
    → IsClosed [] (plugins_of s direct_files proxy_files block_files)
unfolding plugins_of
plugins_of-IsClosed s direct_files proxy_files block_files = (
  tt,
  (
    tt,
    set_of-IsClosed _ direct_domain_set direct_files _ λ a e d.
        set_of-IsClosed a proxy_domain_set proxy_files _ λ b f p.
          set_of-IsClosed b block_domain_set block_files _ λ c g k.
            let base = λ (t : Tag) (h : IsDeclared t a). g t (f t h) in
            let sync : MosdnsPlugin = record { tag = sync_to_pf; args = pf_alias (alias_args s) } in
            (
              tt,
              (
                main_rules-Declared (sync ∷ c)
                    (inr (base forward_remote (e forward_remote (inr (inl refl)))))
                    (inr (base forward_local (e forward_local (inl refl)))) (inl refl) s
                    (nonempty block_files) (nonempty direct_files) (nonempty proxy_files)
                    (HasSet-Extends c (sync ∷ c) (nonempty block_files) block_domain_set
                      (λ t h. inr h) k)
                    (HasSet-Extends a (sync ∷ c) (nonempty direct_files) direct_domain_set
                      (λ t h. inr (base t h)) d)
                    (HasSet-Extends b (sync ∷ c) (nonempty proxy_files) proxy_domain_set
                      (λ t h. inr (g t h)) p),
                (inl refl, (inr (inl refl), tt)),
              ),
            ),
  ),
)
