-- ===== src/Xray/Handlers/Apply.antt =====
-- `handleApplyConfig` of cmd/xray-controller/main.go: what its success means.
use opn_box.Base.{
  ◌≡◌, refl, sym, ap, ◌∙◌, ◌⊎◌, inl, inr, Bool, true, false, Bool-cases, Option, none, some, List,
  [], ◌∷◌, ◌++◌, Bytes, if◌then◌else◌, bytes_eq, bytes_eq_sound, bytes_eq_self, arith,
}
use mathlib.Core.Path.{subst}
use mathlib.Core.List.{foldr}
use mathlib.Core.List.Perm
use mathlib.Core.Bool.{Bool-set}
use opn_box.Tracker.Orders.{IsRange}
use opn_box.Base.{◌||◌}
use opn_box.Text.{text}
use opn_box.Web.{answered}
use opn_box.Web.Files.{KeepsFiles}
use opn_box.Controller.{Host}
use opn_box.Xray.{AppData}
use opn_box.Xray.Json.{Json, string}
use opn_box.Xray.Config.{XrayConfig, generate_xray_config}
use opn_box.Xray.Handlers.{
  Flags, Part, log_part, dns_part, routing_part, inbounds_part, outbounds_part, file_name, Codec,
  load_data,
}
use opn_box.Xray.Handlers.Service.{
  Applied, test_command, part_path, write_part, write_parts, modular_files, checked, written,
  applied, handle_apply_config,
}

abbrev part_named : Bytes → Part
part_named s =
    if bytes_eq s (text "00_log.json")
    then log_part
    else if bytes_eq s (text "02_dns.json")
    then dns_part
    else if bytes_eq s (text "03_routing.json")
    then routing_part
    else if bytes_eq s (text "05_inbounds.json")
    then inbounds_part
    else outbounds_part

part_named-file_name : (p : Part) → part_named (file_name p) ≡ p
unfolding bytes_eq
part_named-file_name log_part = refl
part_named-file_name dns_part = refl
part_named-file_name routing_part = refl
part_named-file_name inbounds_part = refl
part_named-file_name outbounds_part = refl

bytes_eq-append : (dir a b : Bytes) → bytes_eq (dir ++ a) (dir ++ b) ≡ bytes_eq a b
unfolding bytes_eq
bytes_eq-append [] a b = refl
bytes_eq-append (c ∷ dir) a b = ground (arith, bytes_eq-append dir a b)

same_file : (p q : Part) → bytes_eq (file_name q) (file_name p) ≡ true → q ≡ p
same_file p q h =
    sym (part_named-file_name q)
    ∙ ap part_named (bytes_eq_sound (file_name q) (file_name p) h)
    ∙ part_named-file_name p

-- The part is among the parts.
abbrev is_in : Part → List Part → Bool
is_in p = foldr (λ q found. bytes_eq (file_name q) (file_name p) || found) false

is_in-cons :
    (p q : Part) (rest : List Part) → is_in p (q ∷ rest) ≡ true → (q ≡ p) ⊎ (is_in p rest ≡ true)
is_in-cons p q rest h = elim (Bool-cases (bytes_eq (file_name q) (file_name p))) [
  | inl e ↦ inl (same_file p q e)
  | inr e ↦ inr (ground (arith, h, e))
]

listed : (p : Part) → is_in p modular_files ≡ true
unfolding bytes_eq
listed log_part = refl
listed dns_part = refl
listed routing_part = refl
listed inbounds_part = refl
listed outbounds_part = refl

-- Every part is in the map, in whatever order it is ranged over.
is_in-order :
    (order : List Part → List Part)
    → IsRange order
    → (p : Part) → is_in p (order modular_files) ≡ true
is_in-order order range p =
    Perm.foldr-eq Bool-set (λ q found. bytes_eq (file_name q) (file_name p) || found)
      (λ a b n. ground arith) (range modular_files) false
    ∙ listed p

module _ (host : Host) (flags : Flags) (codec : Codec) where
  open host use {World, read, write, make_dir, remove, command}

  same_path :
      (p q : Part)
      → bytes_eq (part_path host flags codec p) (part_path host flags codec q) ≡ true
      → p ≡ q
  unfolding bytes_eq
  same_path p q h =
      let e : file_name p ≡ file_name q =
        bytes_eq_sound (file_name p) (file_name q)
          (sym (bytes_eq-append flags.conf_dir (b'/' ∷ file_name p) (b'/' ∷ file_name q)) ∙ h) in
      sym (part_named-file_name p) ∙ ap part_named e ∙ part_named-file_name q

  module _ (keeps : KeepsFiles host) (cfg : XrayConfig Json) where
    abbrev pub Holds : Part → World → Type 0
    Holds p w = read w (part_path host flags codec p) ≡ codec.marshal_part p cfg

    write_part-Holds :
        (p q : Part) (o : Option Bytes) (w : World)
        → codec.marshal_part q cfg ≡ o
        → (write_part host flags codec q o w).1 ≡ true
        → (q ≡ p) ⊎ Holds p w
        → Holds p (write_part host flags codec q o w).0
    write_part-Holds p q none w e ok h = absurd cc
    write_part-Holds p q (some out) w e ok h =
        let path = part_path host flags codec in
        let after = keeps w (path q) out ok (path p) in
        elim (Bool-cases (bytes_eq (path q) (path p))) [
          | inl same ↦
              let named : codec.marshal_part p cfg ≡ some out =
                ap (λ r. codec.marshal_part r cfg) (sym (same_path q p same)) ∙ e in
              after ∙ rw (same, named) refl
          | inr other ↦ elim h [
            | inl is ↦ absurd (
                cc (
                  subst (λ r. bytes_eq (path q) (path r) ≡ true) is (bytes_eq_self (path q)),
                  other,
                ))
            | inr kept ↦ after ∙ rw other kept
          ]
        ]

    written_part :
        (p q : Part) (rest : List Part) (w : World)
        → let r = write_part host flags codec q (codec.marshal_part q cfg) w in
          (write_parts host flags codec cfg (q ∷ rest) w).1 ≡ true
          → (r.1 ≡ true)
            × (write_parts host flags codec cfg (q ∷ rest) w
                ≡ write_parts host flags codec cfg rest r.0)
    unfolding write_parts
    written_part p q rest w h =
        elim (Bool-cases (write_part host flags codec q (codec.marshal_part q cfg) w).1) [
          | inl e ↦ (e, rw e refl)
          | inr e ↦ absurd (ground (arith, h, e))
        ]

    later-Holds :
        (p : Part) (parts : List Part) (w : World)
        → (write_parts host flags codec cfg parts w).1 ≡ true
        → Holds p w ⊎ (is_in p parts ≡ true)
        → Holds p (write_parts host flags codec cfg parts w).0
    unfolding write_parts
    later-Holds p [] w ok (inl h) = h
    later-Holds p [] w ok (inr i) = absurd (ground (arith, i))
    later-Holds p (q ∷ rest) w ok h =
        let r = write_part host flags codec q (codec.marshal_part q cfg) w in
        let (done, same) = written_part p q rest w ok in
        let ok' : (write_parts host flags codec cfg rest r.0).1 ≡ true =
          ap (λ x. x.1) (sym same) ∙ ok in
        let onward : (q ≡ p) ⊎ Holds p w → Holds p r.0 =
          write_part-Holds p q (codec.marshal_part q cfg) w refl done in
        rw (ap (λ x. x.0) same) (elim h [
          | inl kept ↦ later-Holds p rest r.0 ok' (inl (onward (inr kept)))
          | inr i ↦ elim (is_in-cons p q rest i) [
            | inl here ↦ later-Holds p rest r.0 ok' (inl (onward (inl here)))
            | inr i' ↦ later-Holds p rest r.0 ok' (inr i')
          ]
        ])

  abbrev Passes : World → Type 0
  Passes w =
      (command (remove w (flags.conf_dir ++ text "/config.json")) (test_command host flags codec)).1
      ≡ true

  checked-Passes :
      (r : World × Bool × Bytes) (w' : World) (a : Applied)
      → checked host flags codec r ≡ (w', answered a)
      → a.success ≡ true
      → r.1 ≡ true
  checked-Passes (w, true, out) w' a e h = refl
  checked-Passes (w, false, out) w' a e h = absurd (ground (arith, e, h))

  written-Passes :
      (r : World × Bool) (w' : World) (a : Applied)
      → written host flags codec r ≡ (w', answered a)
      → a.success ≡ true
      → (r.1 ≡ true) × Passes r.0
  written-Passes (w, true) w' a e h = (refl, checked-Passes _ w' a e h)
  written-Passes (w, false) w' a e h = absurd (ground (arith, e, h))

  -- The parts of the data's configuration are written without an error. In the world behind that each
  -- of the five stands in its file, and when the one-piece configuration has been removed from it, the
  -- test of xray on the directory passes.
  abbrev pub IsApplied : (List Part → List Part) → AppData Json → World → Type 0
  IsApplied order d w =
      let cfg = generate_xray_config string d in
      let r = write_parts host flags codec cfg (order modular_files) (make_dir w flags.conf_dir) in
      (r.1 ≡ true)
      × ((p : Part) → read r.0 (flags.conf_dir ++ (b'/' ∷ file_name p)) ≡ codec.marshal_part p cfg)
      × ((command (remove r.0 (flags.conf_dir ++ text "/config.json"))
            (flags.xray_bin ∷ text "run" ∷ text "-test" ∷ text "-confdir" ∷ flags.conf_dir ∷ [])).1
          ≡ true)

  applied-IsApplied :
      KeepsFiles host
      → (order : List Part → List Part) → IsRange order
      → (found : Option (AppData Json)) (w w' : World) (a : Applied)
      → applied host flags codec order found w ≡ (w', answered a)
      → a.success ≡ true
      → (d : AppData Json) × (found ≡ some d) × IsApplied order d w
  applied-IsApplied keeps order range none w w' a e h = absurd (ground (arith, e, h))
  applied-IsApplied keeps order range (some d) w w' a e h =
      let cfg = generate_xray_config string d in
      let parts = order modular_files in
      let (ok, passes) =
        written-Passes (write_parts host flags codec cfg parts (make_dir w flags.conf_dir)) w' a e
          h in
      (
        d,
        refl,
        (
          ok,
          λ p.
              later-Holds keeps cfg p parts (make_dir w flags.conf_dir) ok
                (inr (is_in-order order range p)),
          passes,
        ),
      )

  -- Where a write that succeeds replaces its file and no other, an answer of success means that the data
  -- was loaded and that, in whatever order they were written, each of the five parts of its
  -- configuration stood in its file in the configuration directory behind the last write, and xray's
  -- test of that directory, run next but for the removal of config.json, passed.
  pub handle_apply_config-IsApplied :
      KeepsFiles host
      → (order : List Part → List Part) → IsRange order
      → (w w' : World) (a : Applied)
      → handle_apply_config host flags codec order w ≡ (w', answered a)
      → a.success ≡ true
      → (d : AppData Json) × (load_data host flags codec w ≡ some d) × IsApplied order d w
  unfolding handle_apply_config
  handle_apply_config-IsApplied keeps order range w w' a e h =
      applied-IsApplied keeps order range (load_data host flags codec w) w w' a e h
