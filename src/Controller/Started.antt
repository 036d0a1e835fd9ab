-- ===== src/Controller/Started.antt =====
-- `main` of cmd/mosdns-controller/main.go leaves the files alone that are there.
use opn_box.Base.{
  true, ◌≡◌, ◌∙◌, false, Option, none, some, List, [], ◌∷◌, Bytes, bytes_eq, bytes_eq_iff, arith,
  Bool-cases, inl, inr,
}
use opn_box.Web.Files.{KeepsOthers, KeepsStats}
use opn_box.Controller.{Host, Settings, default_settings, file_exists, join_path}
use opn_box.Controller.Handlers.{Flags, Codec, save_settings, load_settings, encoded_settings}
use opn_box.Controller.Config.{generate_mosdns_config, written, config_of}
use opn_box.Controller.Startup.{
  CustomFile, content_of, ensure_dir, ensure_file, ensure_files, init_directories, start_up,
}

module _ (host : Host) where
  open host use {World, read, make_dir}

  -- Making a directory leaves the files alone.
  abbrev pub IsQuietDir : Type 0
  IsQuietDir = (w : World) (dir path : Bytes) → read (make_dir w dir) path ≡ read w path

module _ (host : Host) (config_dir : Bytes) (flags : Flags) (codec : Codec)
    (others : KeepsOthers host) (quiet : IsQuietDir host) (stats : KeepsStats host) where
  open host use {World, read, write, make_dir}

  -- A path has the content, or is a file that need not be readable.
  abbrev pub There : Option Bytes → World → Bytes → Type 0
  There (some content) w path = read w path ≡ some content
  There none w path = file_exists host w path ≡ true

  -- The files that are there, and their contents, stay.
  abbrev pub Untouched : World → World → Type 0
  Untouched w w' = (path : Bytes) (o : Option Bytes) → There o w path → There o w' path

  ensure_dir-Untouched :
      (dir : Bytes) (w : World) → Untouched w (ensure_dir host config_dir flags codec dir w)
  unfolding ensure_dir
  ensure_dir-Untouched dir w path none h = ground (arith, stats.quiet w dir path, h)
  ensure_dir-Untouched dir w path (some content) h = ground (arith, quiet w dir path, h)

  there :
      (o : Option Bytes) (w : World) (path : Bytes)
      → There o w path
      → file_exists host w path ≡ true
  there none w path h = h
  there (some content) w path h = stats.readable w path content h

  other :
      (o : Option Bytes) (w : World) (target out path : Bytes)
      → bytes_eq target path ≡ false
      → There o w path
      → There o (write w target out).0 path
  other none w target out path e h = stats.others w target out path e ∙ h
  other (some content) w target out path e h = others w target out path e ∙ h

  dir :
      (o : Option Bytes) (w : World) (d path : Bytes) → There o w path → There o (make_dir w d) path
  dir none w d path h = stats.quiet w d path ∙ h
  dir (some content) w d path h = quiet w d path ∙ h

  -- A write of a missing file.
  missing-Untouched :
      (target out : Bytes) (w : World)
      → file_exists host w target ≡ false
      → Untouched w (write w target out).0
  missing-Untouched target out w m path o h = elim (Bool-cases (bytes_eq target path)) [
    | inl e ↦
        let same : target ≡ path = (bytes_eq_iff target path).0 e in
        let m' : file_exists host w path ≡ false = rw same at m in
        absurd (ground (arith, m', there o w path h))
    | inr e ↦ other o w target out path e h
  ]

  ensure_file-Untouched :
      (target out : Bytes) (w : World)
      → Untouched w (ensure_file host config_dir flags codec target out w)
  unfolding ensure_file
  ensure_file-Untouched target out w path content h =
      elim (Bool-cases (file_exists host w target)) [
        | inl e ↦ rw e h
        | inr e ↦ rw e (missing-Untouched target out w e path content h)
      ]

  pub ensure_files-Untouched :
      (fs : List CustomFile) (w : World)
      → Untouched w (ensure_files host config_dir flags codec fs w)
  unfolding ensure_files
  ensure_files-Untouched [] w path content h = h
  ensure_files-Untouched (f ∷ fs) w path content h =
      let target = join_path flags.rule_dir f.name in
      ensure_files-Untouched fs (ensure_file host config_dir flags codec target (content_of f) w)
        path content (ensure_file-Untouched target (content_of f) w path content h)

  init_directories-Untouched :
      (w : World) → Untouched w (init_directories host config_dir flags codec w)
  unfolding init_directories
  init_directories-Untouched w path content h = ensure_files-Untouched _ _ path content (
      ensure_dir-Untouched flags.rule_dir _ path content
        (ensure_dir-Untouched config_dir w path content h))

  saved-Untouched :
      (o : Option Bytes) (w : World)
      → file_exists host w flags.settings_file ≡ false
      → Untouched w (encoded_settings host flags codec w o).0
  saved-Untouched none w m path content h = h
  saved-Untouched (some out) w m path content h =
      missing-Untouched flags.settings_file out (make_dir w flags.settings_dir)
        (rw (stats.quiet w flags.settings_dir flags.settings_file) m) path content
        (dir content w flags.settings_dir path h)

  pub load_settings-Untouched : (w : World) → Untouched w (load_settings host flags codec w).0
  unfolding load_settings save_settings
  load_settings-Untouched w path content h =
      elim (Bool-cases (file_exists host w flags.settings_file)) [
        | inl e ↦ rw e h
        | inr e ↦ elim (Bool-cases (file_exists host w flags.controller_yaml)) [
          | inl e' ↦ rw (e, e') h
          | inr e' ↦
              rw (e, e')
                (saved-Untouched (codec.marshal_settings default_settings) w e path content h)
        ]
      ]

  pub generated-Untouched :
      (o : Option Bytes) (s : Settings) (w : World)
      → file_exists host w flags.config_file ≡ false
      → Untouched w
          (written host flags.rule_dir flags.config_file codec.marshal_yaml codec.header w s o).0
  generated-Untouched none s w m path content h = h
  generated-Untouched (some out) s w m path content h =
      missing-Untouched flags.config_file _ w m path content h

  -- Where a write leaves other files alone, and making a directory leaves files alone, a start of the
  -- controller changes no file that is there, and removes none: no rule file, no settings, no configuration.
  pub start_up-Untouched : (w : World) → Untouched w (start_up host config_dir flags codec w)
  unfolding start_up generate_mosdns_config
  start_up-Untouched w path content h =
      let ready = init_directories host config_dir flags codec w in
      let (w', s) = load_settings host flags codec ready in
      let kept =
        load_settings-Untouched ready path content (init_directories-Untouched w path content h) in
      elim (Bool-cases (file_exists host w' flags.config_file)) [
        | inl e ↦ rw e kept
        | inr e ↦ rw e (
            generated-Untouched (codec.marshal_yaml (config_of host flags.rule_dir s w')) s w' e
              path content kept)
      ]
