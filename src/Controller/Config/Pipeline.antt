-- ===== src/Controller/Config/Pipeline.antt =====
-- The sequence that cmd/mosdns-controller/main.go generates, as mosdns runs it. mosdns is a parameter:
-- `Sequence` is what a sequence works on, and `IsSequence` what its documentation says of running one.
use opn_box.Base.{
  ℕ, ◌≡◌, refl, ◌∙◌, Bool, true, false, ◌&&◌, Bool-cases, inl, inr, List, [], ◌∷◌, ◌++◌,
  if◌then◌else◌,
}
use opn_box.Controller.Config.{
  Tag, forward_remote, forward_local, direct_domain_set, proxy_domain_set, block_domain_set,
  sync_to_pf, Match, qname, has_resp, Exec, plugin, reject, leave, Rule, on, block_rules,
  direct_rules, proxy_rules, all_local, all_remote,
}

-- A query in a sequence: what a matcher says of it, and what a plugin and `reject` make of it.
pub record Sequence : Type 1 where
  pub Query : Type 0
  pub accepts : Query → Match → Bool
  pub perform : Query → Tag → Query
  pub rejected : Query → ℕ → Query
  pub run : List Rule → Query → Query

module _ (mosdns : Sequence) where
  open mosdns use {Query, accepts, perform, rejected, run}

  abbrev pub all_accept : Query → List Match → Bool
  all_accept q [] = true
  all_accept q (m ∷ ms) = accepts q m && all_accept q ms

  -- A rule whose matchers all accept the query is executed. `reject` and `return` end the sequence.
  abbrev pub executed : Exec → Query → List Rule → Query
  executed (plugin t) q rest = run rest (perform q t)
  executed (reject code) q rest = rejected q code
  executed leave q rest = q

  pub record IsSequence : Type 0 where
    pub ended : (q : Query) → run [] q ≡ q
    pub stepped :
        (r : Rule) (rest : List Rule) (q : Query)
        → run (r ∷ rest) q ≡ (if all_accept q r.matches then executed r.exec q rest else run rest q)

  -- A forwarder answers, and a plugin changes neither the query's name nor, if it is `sync_to_pf`,
  -- the response.
  pub record IsAnswering : Type 0 where
    pub remote : (q : Query) → accepts (perform q forward_remote) has_resp ≡ true
    pub local : (q : Query) → accepts (perform q forward_local) has_resp ≡ true
    pub synced : (q : Query) → accepts (perform q sync_to_pf) has_resp ≡ accepts q has_resp
    pub name_kept : (q : Query) (t s : Tag) → accepts (perform q t) (qname s) ≡ accepts q (qname s)

  abbrev pub to_local : Query → Query
  to_local q = perform q forward_local

  abbrev pub to_remote : Query → Query
  to_remote q = perform (perform q forward_remote) sync_to_pf

  module _ (law : IsSequence) (net : IsAnswering) where
    always : (e : Exec) (rest : List Rule) (q : Query) → run (on [] e ∷ rest) q ≡ executed e q rest
    always e rest q = law.stepped (on [] e) rest q

    taken :
        (m : Match) (e : Exec) (rest : List Rule) (q : Query)
        → accepts q m ≡ true
        → run (on (m ∷ []) e ∷ rest) q ≡ executed e q rest
    taken m e rest q h = law.stepped (on (m ∷ []) e) rest q ∙ rw h refl

    skipped :
        (m : Match) (e : Exec) (rest : List Rule) (q : Query)
        → accepts q m ≡ false
        → run (on (m ∷ []) e ∷ rest) q ≡ run rest q
    skipped m e rest q h = law.stepped (on (m ∷ []) e) rest q ∙ rw h refl

    answered :
        (rest : List Rule) (q : Query)
        → accepts q has_resp ≡ true
        → run (on (has_resp ∷ []) leave ∷ rest) q ≡ q
    answered rest q h = taken has_resp leave rest q h

    unanswered :
        (rest : List Rule) (q : Query)
        → accepts q has_resp ≡ false
        → run (on (has_resp ∷ []) leave ∷ rest) q ≡ run rest q
    unanswered rest q h = skipped has_resp leave rest q h

    pub blocked_first :
        (has : Bool) (rest : List Rule) (q : Query)
        → accepts q has_resp ≡ false
        → run (block_rules has ++ rest) q
          ≡ (if has && accepts q (qname block_domain_set) then rejected q 3 else run rest q)
    blocked_first false rest q h = refl
    blocked_first true rest q h = elim (Bool-cases (accepts q (qname block_domain_set))) [
      | inl e ↦ rw e (taken (qname block_domain_set) (reject 3) _ q e)
      | inr e ↦ rw e (skipped (qname block_domain_set) (reject 3) _ q e ∙ unanswered rest q h)
    ]

    pub local_first :
        (has : Bool) (rest : List Rule) (q : Query)
        → accepts q has_resp ≡ false
        → run (direct_rules has ++ rest) q
          ≡ (if has && accepts q (qname direct_domain_set) then to_local q else run rest q)
    local_first false rest q h = refl
    local_first true rest q h = elim (Bool-cases (accepts q (qname direct_domain_set))) [
      | inl e ↦ rw e (
          taken (qname direct_domain_set) (plugin forward_local) _ q e
          ∙ answered rest (to_local q) (net.local q))
      | inr e ↦
          rw e
            (skipped (qname direct_domain_set) (plugin forward_local) _ q e ∙ unanswered rest q h)
    ]

    remote_answered : (q : Query) → accepts (to_remote q) has_resp ≡ true
    remote_answered q = net.synced (perform q forward_remote) ∙ net.remote q

    pub remote_first :
        (has : Bool) (rest : List Rule) (q : Query)
        → accepts q has_resp ≡ false
        → run (proxy_rules has ++ rest) q
          ≡ (if has && accepts q (qname proxy_domain_set) then to_remote q else run rest q)
    remote_first false rest q h = refl
    remote_first true rest q h = elim (Bool-cases (accepts q (qname proxy_domain_set))) [
      | inl e ↦ rw e (
          taken (qname proxy_domain_set) (plugin forward_remote) _ q e
          ∙ taken (qname proxy_domain_set) (plugin sync_to_pf) _ (perform q forward_remote)
              (net.name_kept q forward_remote proxy_domain_set ∙ e)
          ∙ answered rest (to_remote q) (remote_answered q))
      | inr e ↦ rw e (
          skipped (qname proxy_domain_set) (plugin forward_remote) _ q e
          ∙ skipped (qname proxy_domain_set) (plugin sync_to_pf) _ q e
          ∙ unanswered rest q h)
    ]

    pub run-all_local : (q : Query) → run all_local q ≡ to_local q
    run-all_local q = always (plugin forward_local) [] q ∙ law.ended (to_local q)

    pub run-all_remote : (q : Query) → run all_remote q ≡ to_remote q
    run-all_remote q =
        always (plugin forward_remote) _ q
        ∙ always (plugin sync_to_pf) [] (perform q forward_remote)
        ∙ law.ended (to_remote q)
