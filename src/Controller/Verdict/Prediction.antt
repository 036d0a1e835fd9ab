-- ===== src/Controller/Verdict/Prediction.antt =====
-- `handleTestDomain` against the sequence that `generateMosdnsConfig` writes, both in
-- cmd/mosdns-controller/main.go.
use opn_box.Base.{
  arith, ◌≡◌, refl, sym, ap, ◌∙◌, Bool, true, false, ◌&&◌, ◌||◌, Option, none, some, List, [], ◌∷◌,
  ◌++◌, Bytes, is_some, if◌then◌else◌, bytes_eq,
}
use opn_box.Text.{text}
use opn_box.Web.Files.{IsReadable}
use opn_box.Controller.{Settings, Host, file_exists, join_path}
use opn_box.Controller.Reading.{match_domain_in_file}
use opn_box.Controller.Config.{
  Tag, MosdnsPlugin, sequence, config_of, plugins_of, set_of, Rule, qname, has_resp,
  direct_domain_set, proxy_domain_set, block_domain_set, existing, block_files, nonempty,
  main_rules, mode_rules, proxy_rules, direct_rules, all_local, all_remote,
}
use opn_box.Controller.Config.Pipeline.{
  Sequence, IsSequence, IsAnswering, to_local, to_remote, blocked_first, local_first, remote_first,
  run-all_local, run-all_remote,
}
use opn_box.Controller.Verdict.{
  go_proxy, go_direct, Action, block, direct, proxy, Verdict, Found, first_of, by_mode,
  in_blacklist, in_custom, in_whitelist, unless_blocked, found_direct, found_proxy, found_block,
  verdict, match_in,
}

module _ (mosdns : Sequence) where
  open mosdns use {Query, accepts, rejected, run}

  -- What becomes of a query by an action of the answer.
  abbrev pub outcome : Query → Action → Query
  outcome q block = rejected q 3
  outcome q direct = to_local mosdns q
  outcome q proxy = to_remote mosdns q

  module _ (law : IsSequence mosdns) (net : IsAnswering mosdns) (s : Settings) (q : Query)
      (fresh : accepts q has_resp ≡ false) where
    agree :
        (b : Bool) (xs ys : List Rule) (u v : Verdict)
        → run xs q ≡ outcome q u.action
        → run ys q ≡ outcome q v.action
        → run (if b then xs else ys) q ≡ outcome q (if b then u else v).action
    agree true xs ys u v h k = h
    agree false xs ys u v h k = k

    blacklist_predicted :
        (has : Bool) (p : Found)
        → (has && accepts q (qname proxy_domain_set)) ≡ is_some p
        → run (proxy_rules has ++ all_local) q ≡ outcome q (in_blacklist s p).action
    blacklist_predicted has (some (file, pattern)) f =
        remote_first mosdns law net has all_local q fresh ∙ rw f refl
    blacklist_predicted has none f =
        remote_first mosdns law net has all_local q fresh ∙ rw f (run-all_local mosdns law net q)

    default_predicted :
        run (if bytes_eq s.custom_default_route (text "proxy") then all_remote else all_local) q
        ≡ outcome q (in_custom s none none).action
    default_predicted =
        agree (bytes_eq s.custom_default_route (text "proxy")) all_remote all_local
          (go_proxy s (text "未分类/未知域名") (text "-")) (go_direct s (text "未分类/未知域名") (text "-"))
          (run-all_remote mosdns law net q) (run-all_local mosdns law net q)

    custom_predicted :
        (has_direct has_proxy : Bool) (d p : Found)
        → (has_direct && accepts q (qname direct_domain_set)) ≡ is_some d
        → (has_proxy && accepts q (qname proxy_domain_set)) ≡ is_some p
        → run
            (direct_rules has_direct
              ++ (proxy_rules has_proxy
                  ++ (if bytes_eq s.custom_default_route (text "proxy")
                      then all_remote
                      else all_local)))
            q
          ≡ outcome q (in_custom s d p).action
    custom_predicted has_direct has_proxy (some (file, pattern)) p e f =
        local_first mosdns law net has_direct _ q fresh ∙ rw e refl
    custom_predicted has_direct has_proxy none (some (file, pattern)) e f =
        local_first mosdns law net has_direct _ q fresh
        ∙ rw e (remote_first mosdns law net has_proxy _ q fresh ∙ rw f refl)
    custom_predicted has_direct has_proxy none none e f =
        local_first mosdns law net has_direct _ q fresh
        ∙ rw e (remote_first mosdns law net has_proxy _ q fresh ∙ rw f default_predicted)

    whitelist_predicted :
        (has : Bool) (d p : Found)
        → (has && accepts q (qname direct_domain_set)) ≡ is_some d
        → run (direct_rules has ++ all_remote) q ≡ outcome q (in_whitelist s d p).action
    whitelist_predicted has (some (file, pattern)) p e =
        local_first mosdns law net has all_remote q fresh ∙ rw e refl
    whitelist_predicted has none (some (file, pattern)) e =
        local_first mosdns law net has all_remote q fresh ∙ rw e (run-all_remote mosdns law net q)
    whitelist_predicted has none none e =
        local_first mosdns law net has all_remote q fresh ∙ rw e (run-all_remote mosdns law net q)

    -- Where the sets that are generated accept what the answer found, the mode's rules do what it says.
    mode_predicted :
        (has_direct has_proxy : Bool) (d p : Found)
        → (has_direct && accepts q (qname direct_domain_set)) ≡ is_some d
        → (has_proxy && accepts q (qname proxy_domain_set)) ≡ is_some p
        → run (mode_rules s has_direct has_proxy) q ≡ outcome q (by_mode s d p).action
    unfolding mode_rules by_mode
    mode_predicted has_direct has_proxy d p e f =
        let default =
          if bytes_eq s.custom_default_route (text "proxy") then all_remote else all_local in
        let custom = direct_rules has_direct ++ (proxy_rules has_proxy ++ default) in
        let white = direct_rules has_direct ++ all_remote in
        let is_custom = bytes_eq s.mode (text "custom") in
        agree (bytes_eq s.mode (text "blacklist")) (proxy_rules has_proxy ++ all_local)
          (if is_custom then custom else white) (in_blacklist s p)
          (if is_custom then in_custom s d p else in_whitelist s d p)
          (blacklist_predicted has_proxy p f)
          (agree is_custom custom white (in_custom s d p) (in_whitelist s d p)
            (custom_predicted has_direct has_proxy d p e f) (whitelist_predicted has_direct d p e))

    main_predicted :
        (has_block has_direct has_proxy : Bool) (b : Option Bytes) (d p : Found)
        → (has_block && accepts q (qname block_domain_set)) ≡ is_some b
        → (has_direct && accepts q (qname direct_domain_set)) ≡ is_some d
        → (has_proxy && accepts q (qname proxy_domain_set)) ≡ is_some p
        → run (main_rules s has_block has_direct has_proxy) q
          ≡ outcome q (unless_blocked b (by_mode s d p)).action
    unfolding main_rules
    main_predicted has_block has_direct has_proxy (some pattern) d p k e f =
        blocked_first mosdns law net has_block _ q fresh ∙ rw k refl
    main_predicted has_block has_direct has_proxy none d p k e f =
        blocked_first mosdns law net has_block _ q fresh
        ∙ rw k (mode_predicted has_direct has_proxy d p e f)

first_some :
    (t t' : Bytes) (x y : Option Bytes) → is_some (first_of t x t' y) ≡ (is_some x || is_some y)
first_some t t' (some pattern) y = refl
first_some t t' none (some pattern) = refl
first_some t t' none none = refl

-- The rules of the sequence in a list of plugins.
abbrev pub sequence_rules : List MosdnsPlugin → List Rule
sequence_rules [] = []
sequence_rules (p ∷ ps) = elim p.args [ sequence rules ↦ rules | _ ↦ sequence_rules ps ]

sequence_rules-set_of :
    (t : Tag) (files : List Bytes) (rest : List MosdnsPlugin)
    → sequence_rules (set_of t files ++ rest) ≡ sequence_rules rest
sequence_rules-set_of t [] rest = refl
sequence_rules-set_of t (file ∷ files) rest = refl

sequence_rules-plugins_of :
    (s : Settings) (d p b : List Bytes)
    → sequence_rules (plugins_of s d p b) ≡ main_rules s (nonempty b) (nonempty d) (nonempty p)
unfolding plugins_of
sequence_rules-plugins_of s d p b =
    sequence_rules-set_of direct_domain_set d _
    ∙ sequence_rules-set_of proxy_domain_set p _
    ∙ sequence_rules-set_of block_domain_set b _

module _ (to_lower : Bytes → Bytes) where
  abbrev hit : Option Bytes → Bytes → Bool
  hit content domain = is_some (match_domain_in_file to_lower content domain)

  -- A file that matches exists.
  pair_has :
      (is_x is_y : Bool) (x y : Option Bytes) (p r domain : Bytes)
      → ((c : Bytes) → x ≡ some c → is_x ≡ true)
      → ((c : Bytes) → y ≡ some c → is_y ≡ true)
      → (nonempty
            (if is_x then p ∷ (if is_y then r ∷ [] else []) else (if is_y then r ∷ [] else []))
          && (hit y domain || hit x domain))
        ≡ (hit y domain || hit x domain)
  pair_has true is_y x y p r domain h k = refl
  pair_has false true x y p r domain h k = refl
  pair_has false false none none p r domain h k = refl
  pair_has false false (some c) y p r domain h k = absurd (ground (arith, h c refl))
  pair_has false false none (some c) p r domain h k = absurd (ground (arith, k c refl))

  single_has :
      (is_x : Bool) (x : Option Bytes) (p domain : Bytes)
      → ((c : Bytes) → x ≡ some c → is_x ≡ true)
      → (nonempty (if is_x then p ∷ [] else []) && hit x domain) ≡ hit x domain
  single_has true x p domain h = refl
  single_has false none p domain h = refl
  single_has false (some c) p domain h = absurd (ground (arith, h c refl))

  module _ (host : Host) (rule_dir : Bytes) where
    open host use {World, read}

    -- A set of mosdns accepts a name exactly if `matchDomainInFile` finds it in one of the set's files.
    pub record IsMatching (mosdns : Sequence) (q : mosdns.Query) (w : World) (domain : Bytes)
        : Type 0 where
      pub block_set :
          mosdns.accepts q (qname block_domain_set)
          ≡ is_some (match_in to_lower host rule_dir w (text "custom-block.txt") domain)
      pub direct_set : mosdns.accepts q (qname direct_domain_set) ≡ (
          is_some (match_in to_lower host rule_dir w (text "custom-direct.txt") domain)
          || is_some (match_in to_lower host rule_dir w (text "cn.txt") domain))
      pub proxy_set : mosdns.accepts q (qname proxy_domain_set) ≡ (
          is_some (match_in to_lower host rule_dir w (text "custom-proxy.txt") domain)
          || is_some (match_in to_lower host rule_dir w (text "gfw.txt") domain))

    block_has :
        IsReadable host
        → (on : Bool) (w : World) (domain : Bytes)
        → (nonempty (if on then existing host rule_dir w (text "custom-block.txt" ∷ []) else [])
            && is_some (match_in to_lower host rule_dir w (text "custom-block.txt") domain))
          ≡ is_some (
              if on
              then match_in to_lower host rule_dir w (text "custom-block.txt") domain
              else none)
    unfolding existing
    block_has readable false w domain = refl
    block_has readable true w domain =
        single_has (file_exists host w (join_path rule_dir (text "custom-block.txt")))
          (read w (join_path rule_dir (text "custom-block.txt")))
          (join_path rule_dir (text "custom-block.txt")) domain
          (readable w (join_path rule_dir (text "custom-block.txt")))

    pub matched-verdict :
        IsReadable host
        → (mosdns : Sequence) (s : Settings) (w : World) (domain : Bytes) (q : mosdns.Query)
        → IsSequence mosdns
        → IsAnswering mosdns
        → IsMatching mosdns q w domain
        → mosdns.accepts q has_resp ≡ false
        → mosdns.run (sequence_rules (config_of host rule_dir s w).plugins) q
          ≡ outcome mosdns q (verdict to_lower host rule_dir s w domain).action
    unfolding config_of verdict existing
    matched-verdict readable mosdns s w domain q law net m fresh =
        let files = λ (a b : Bytes). existing host rule_dir w (a ∷ b ∷ []) in
        let direct_files = files (text "cn.txt") (text "custom-direct.txt") in
        let proxy_files = files (text "gfw.txt") (text "custom-proxy.txt") in
        let blocks = block_files host rule_dir s w in
        let file = λ (name : Bytes). read w (join_path rule_dir name) in
        ap (λ rules. mosdns.run rules q)
          (sequence_rules-plugins_of s direct_files proxy_files blocks)
        ∙ main_predicted mosdns law net s q fresh (nonempty blocks) (nonempty direct_files)
            (nonempty proxy_files) (found_block to_lower host rule_dir s w domain)
            (found_direct to_lower host rule_dir w domain)
            (found_proxy to_lower host rule_dir w domain)
            (ap (◌&&◌ (nonempty blocks)) m.block_set ∙ block_has readable s.block_enabled w domain)
            (ap (◌&&◌ (nonempty direct_files)) m.direct_set
              ∙ pair_has _ _ (file (text "cn.txt")) (file (text "custom-direct.txt")) _ _ domain
                  (readable w (join_path rule_dir (text "cn.txt")))
                  (readable w (join_path rule_dir (text "custom-direct.txt")))
              ∙ sym (first_some _ _ _ _))
            (ap (◌&&◌ (nonempty proxy_files)) m.proxy_set
              ∙ pair_has _ _ (file (text "gfw.txt")) (file (text "custom-proxy.txt")) _ _ domain
                  (readable w (join_path rule_dir (text "gfw.txt")))
                  (readable w (join_path rule_dir (text "custom-proxy.txt")))
              ∙ sym (first_some _ _ _ _))
