-- ===== src/Controller/Handlers/Requests.antt =====
-- `handleRules` of cmd/mosdns-controller/main.go: which files a request changes, and what a later one
-- reads.
use opn_box.Base.{
  ◌≡◌, refl, sym, ap, ◌∙◌, inl, inr, Bool, true, false, Bool-cases, Option, none, some, [], ◌∷◌,
  Bytes, length, ◌==◌, bytes_eq, bytes_eq_self, arith,
}
use opn_box.Web.{Method, get, post, other_method, answered, restart_twice}
use opn_box.Web.Files.{KeepsFiles, KeepsOthers, IsQuietAt}
use opn_box.Controller.{Host}
use opn_box.Controller.Reading.{count_in}
use opn_box.Controller.Handlers.{
  Flags, Codec, normalized, editable, RulesAnswer, shown, RulesRequest, rule_path, restarted,
  on_written, named_rules, handle_rules,
}

editable_filled : (name : Bytes) → editable name ≡ some true → (length name == 0) ≡ false
unfolding editable bytes_eq
editable_filled [] h = ground (arith, h)
editable_filled (b ∷ name) h = ground arith

module _ (host : Host) (flags : Flags) (codec : Codec) where
  open host use {World, read, write}

  abbrev path_of : Bytes → Bytes
  path_of = rule_path host flags codec

  restarted_same :
      (path : Bytes)
      → IsQuietAt host path
      → (again : Bool) (w : World) → read (restarted host flags codec again w) path ≡ read w path
  unfolding restart_twice
  restarted_same path quiet false w = refl
  restarted_same path quiet true w = quiet _ _ ∙ quiet w _

  written_same :
      (path name : Bytes)
      → IsQuietAt host path
      → (again : Bool) (r : World × Bool)
      → read (on_written host flags codec name again r).0 path ≡ read r.0 path
  written_same path name quiet again (w, false) = refl
  written_same path name quiet again (w, true) = restarted_same path quiet again w

  -- The path is not that of a file that may be edited.
  abbrev pub IsOutside : Bytes → Type 0
  IsOutside path = (name : Bytes) → editable name ≡ some true → bytes_eq (path_of name) path ≡ false

  named_same :
      KeepsOthers host
      → (path : Bytes) → IsQuietAt host path
      → (method : Method) (name : Bytes) (may_edit : Option Bool) (body : Option RulesRequest)
        (w : World)
      → (may_edit ≡ some true → bytes_eq (path_of name) path ≡ false)
      → read (named_rules host flags codec method name may_edit body w).0 path ≡ read w path
  named_same keeps path quiet get name (some b) body w h = refl
  named_same keeps path quiet other_method name (some b) body w h = refl
  named_same keeps path quiet post name (some false) body w h = refl
  named_same keeps path quiet post name (some true) none w h = refl
  named_same keeps path quiet post name (some true) (some req) w h =
      written_same path name quiet req.reload (write w (path_of name) (normalized req.content))
      ∙ keeps w (path_of name) (normalized req.content) path (h refl)
  named_same keeps path quiet method name none body w h = refl

  -- Where a write leaves other files alone and a restart leaves the file alone, no request to
  -- `handleRules`, whatever name it gives, changes a file but the rule files that may be edited.
  pub handle_rules_confined :
      KeepsOthers host
      → (path : Bytes) → IsQuietAt host path
      → IsOutside path
      → (method : Method) (name : Bytes) (body : Option RulesRequest) (w : World)
      → read (handle_rules host flags codec method name body w).0 path ≡ read w path
  unfolding handle_rules
  handle_rules_confined keeps path quiet outside method name body w =
      elim (Bool-cases (length name == 0)) [
        | inl e ↦ rw e refl
        | inr e ↦
            rw e (named_same keeps path quiet method name (editable name) body w (outside name))
      ]

  -- What a read of an editable file answers.
  abbrev pub file_with : Bytes → Bytes → RulesAnswer
  file_with name content = shown (record {
    name = name;
    content = content;
    count = count_in (some content);
    read_only = false;
  })

  posted :
      KeepsFiles host
      → (name : Bytes) → IsQuietAt host (path_of name)
      → (again : Bool) (content : Bytes) (w w' : World) (a : RulesAnswer)
      → on_written host flags codec name again (write w (path_of name) content) ≡ (w', answered a)
      → read w' (path_of name) ≡ some content
  posted keeps name quiet again content w w' a e =
      behind (write w (path_of name) content)
        (λ ok.
          keeps w (path_of name) content ok (path_of name) ∙ rw (bytes_eq_self (path_of name)) refl)
        e
    where
      behind :
          (r : World × Bool)
          → (r.1 ≡ true → read r.0 (path_of name) ≡ some content)
          → on_written host flags codec name again r ≡ (w', answered a)
          → read w' (path_of name) ≡ some content
      behind (v, false) h e = absurd (ground (arith, e))
      behind (v, true) h e =
          let same : restarted host flags codec again v ≡ w' = ap (λ x. x.0) e in
          rw (sym same) (restarted_same (path_of name) quiet again v ∙ h refl)

  -- Where a write that succeeds replaces its file and no other and a restart leaves the file alone, a
  -- read behind a request that has saved an editable rule file gets its lines, trimmed and without the
  -- empty ones, and the number of entries among them.
  pub handle_rules_returns :
      KeepsFiles host
      → (name : Bytes) → IsQuietAt host (path_of name)
      → editable name ≡ some true
      → (req : RulesRequest) (w w' : World) (a : RulesAnswer)
      → handle_rules host flags codec post name (some req) w ≡ (w', answered a)
      → handle_rules host flags codec get name none w'
        ≡ (w', answered (file_with name (normalized req.content)))
  unfolding handle_rules
  handle_rules_returns keeps name quiet may req w w' a e =
      let filled = editable_filled name may in
      let e' : on_written host flags codec name req.reload
            (write w (path_of name) (normalized req.content))
          ≡ (w', answered a) =
        ground (arith, e, may, filled) in
      let back = posted keeps name quiet req.reload (normalized req.content) w w' a e' in
      rw (filled, may, back) refl
