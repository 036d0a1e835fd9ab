-- ===== src/Controller/Ready.antt =====
-- `main` of cmd/mosdns-controller/main.go leaves a configuration and the custom rule files.
use opn_box.Base.{
  ◌≡◌, refl, ◌∙◌, true, Option, none, some, is_some, List, [], ◌∷◌, Bytes, arith, Bool-cases, inl,
  inr,
}
use opn_box.Web.Files.{KeepsOthers, KeepsFiles, KeepsStats}
use opn_box.Controller.{Host, Settings, file_exists, join_path}
use opn_box.Controller.Handlers.{Flags, Codec, load_settings}
use opn_box.Controller.Config.{MosdnsYaml, generate_mosdns_config, written, config_of}
use opn_box.Controller.Startup.{
  CustomFile, content_of, ensure_file, ensure_files, init_directories, start_up, configured,
  custom_direct, custom_proxy, custom_block,
}
use opn_box.Text.{text}
use opn_box.Controller.Started.{
  IsQuietDir, Untouched, ensure_files-Untouched, load_settings-Untouched, generated-Untouched,
  start_up-Untouched,
}

module _ (host : Host) where
  open host use {World, read, write}

  -- Every write succeeds.
  abbrev pub WritesAll : Type 0
  WritesAll = (w : World) (path content : Bytes) → (write w path content).1 ≡ true

module _ (host : Host) (config_dir : Bytes) (flags : Flags) (codec : Codec)
    (files : KeepsFiles host) (all : WritesAll host) (quiet : IsQuietDir host)
    (stats : KeepsStats host) where
  open host use {World, read, write}

  others : KeepsOthers host
  others w path content other e = files w path content (all w path content) other ∙ rw e refl

  stays :
      (w w' : World) (path : Bytes)
      → Untouched host config_dir flags codec others quiet stats w w'
      → file_exists host w path ≡ true
      → file_exists host w' path ≡ true
  stays w w' path u h = u path none h

  written_exists :
      (w : World) (path content : Bytes) → file_exists host (write w path content).0 path ≡ true
  written_exists w path content = stats.made w path content (all w path content)

  ensure_file_exists :
      (path content : Bytes) (w : World)
      → file_exists host (ensure_file host config_dir flags codec path content w) path ≡ true
  unfolding ensure_file
  ensure_file_exists path content w = elim (Bool-cases (file_exists host w path)) [
    | inl e ↦ rw e e
    | inr e ↦ rw e (written_exists w path content)
  ]

  -- The files stand after the loop.
  abbrev AllThere : World → List CustomFile → Type 0
  AllThere w [] = Unit {0}
  AllThere w (f ∷ fs) =
      (file_exists host w (join_path flags.rule_dir f.name) ≡ true) × AllThere w fs

  ensure_files-AllThere :
      (fs : List CustomFile) (w : World)
      → AllThere (ensure_files host config_dir flags codec fs w) fs
  unfolding ensure_files
  ensure_files-AllThere [] w = tt
  ensure_files-AllThere (f ∷ fs) w =
      let path = join_path flags.rule_dir f.name in
      let w1 = ensure_file host config_dir flags codec path (content_of f) w in
      (
        stays w1 (ensure_files host config_dir flags codec fs w1) path
            (ensure_files-Untouched host config_dir flags codec others quiet stats fs w1)
            (ensure_file_exists path (content_of f) w),
        ensure_files-AllThere fs w1,
      )

  AllThere-Untouched :
      (fs : List CustomFile) (w w' : World)
      → Untouched host config_dir flags codec others quiet stats w w'
      → AllThere w fs
      → AllThere w' fs
  AllThere-Untouched [] w w' u a = tt
  AllThere-Untouched (f ∷ fs) w w' u (h, a) =
      (stays w w' (join_path flags.rule_dir f.name) u h, AllThere-Untouched fs w w' u a)

  configured-Untouched :
      (w : World) (s : Settings)
      → Untouched host config_dir flags codec others quiet stats w
          (configured host config_dir flags codec (w, s))
  unfolding generate_mosdns_config
  configured-Untouched w s path content h =
      elim (Bool-cases (file_exists host w flags.config_file)) [
        | inl e ↦ rw e h
        | inr e ↦ rw e (
            generated-Untouched host config_dir flags codec others quiet stats
              (codec.marshal_yaml (config_of host flags.rule_dir s w)) s w e path content h)
      ]

  generated_exists :
      (o : Option Bytes) (s : Settings) (w : World)
      → is_some o ≡ true
      → file_exists host
          (written host flags.rule_dir flags.config_file codec.marshal_yaml codec.header w s o).0
          flags.config_file
        ≡ true
  generated_exists none s w h = absurd (ground (arith, h))
  generated_exists (some out) s w h = written_exists w flags.config_file _

  configured_exists :
      ((y : MosdnsYaml) → is_some (codec.marshal_yaml y) ≡ true)
      → (w : World) (s : Settings)
      → file_exists host (configured host config_dir flags codec (w, s)) flags.config_file ≡ true
  unfolding generate_mosdns_config
  configured_exists yaml w s = elim (Bool-cases (file_exists host w flags.config_file)) [
    | inl e ↦ rw e e
    | inr e ↦ rw e (generated_exists _ s w (yaml (config_of host flags.rule_dir s w)))
  ]

  -- Where every write succeeds, and makes or replaces its file and no other, the making of a directory
  -- makes, changes and removes no file, a file that can be read exists, and YAML encodes the
  -- configuration, a start of the controller leaves the three custom rule files and the configuration in place, and
  -- each file that was there as it was.
  pub start_up-Ready :
      ((y : MosdnsYaml) → is_some (codec.marshal_yaml y) ≡ true)
      → (w : World)
      → (file_exists host
            (start_up host config_dir flags codec w)
            (join_path flags.rule_dir (text "custom-direct.txt"))
          ≡ true)
        × (file_exists host
              (start_up host config_dir flags codec w)
              (join_path flags.rule_dir (text "custom-proxy.txt"))
            ≡ true)
        × (file_exists host
              (start_up host config_dir flags codec w)
              (join_path flags.rule_dir (text "custom-block.txt"))
            ≡ true)
        × (file_exists host (start_up host config_dir flags codec w) flags.config_file ≡ true)
        × ((path content : Bytes)
            → read w path ≡ some content
            → read (start_up host config_dir flags codec w) path ≡ some content)
  unfolding start_up init_directories
  start_up-Ready yaml w =
      let ready = init_directories host config_dir flags codec w in
      let (w', s) = load_settings host flags codec ready in
      let fs = custom_direct ∷ custom_proxy ∷ custom_block ∷ [] in
      let made : AllThere ready fs = ensure_files-AllThere fs _ in
      let loaded : AllThere w' fs =
        AllThere-Untouched fs ready w'
          (load_settings-Untouched host config_dir flags codec others quiet stats ready) made in
      let there : AllThere (configured host config_dir flags codec (w', s)) fs =
        AllThere-Untouched fs w' (configured host config_dir flags codec (w', s))
          (configured-Untouched w' s) loaded in
      (
        there.0,
        there.1.0,
        there.1.1.0,
        configured_exists yaml w' s,
        λ path content.
            start_up-Untouched host config_dir flags codec others quiet stats w path (some content),
      )
