-- ===== src/Hev/Saved.antt =====
-- `handleConfig` of cmd/hev-controller/main.go: what a request reads behind one that saves.
use opn_box.Base.{
  ◌≡◌, refl, sym, ap, ◌∙◌, Bool, true, false, Option, none, some, Bytes, if◌then◌else◌,
  bytes_eq_self, arith,
}
use opn_box.Web.{get, post, answered, restart}
use opn_box.Web.Files.{KeepsFiles, IsQuietAt}
use opn_box.Controller.{Host}
use opn_box.Hev.{
  HevConfig, Flags, Codec, load_config, written, save_config, shown, on_saved, handle_config,
}

module _ (host : Host) (flags : Flags) (codec : Codec) where
  open host use {World, read, write, make_dir}

  abbrev Keeps : World → HevConfig → Type 0
  Keeps w cfg = shown host flags codec (load_config host flags codec w) ≡ answered (some cfg)

  -- YAML reads back what it writes of a configuration.
  abbrev pub IsFaithful : HevConfig → Type 0
  IsFaithful cfg = (out : Bytes) → codec.marshal cfg ≡ some out → codec.unmarshal out ≡ some cfg

  file-Keeps :
      (cfg : HevConfig)
      → IsFaithful cfg
      → (out : Bytes) (w : World) → codec.marshal cfg ≡ some out
      → read w flags.config_file ≡ some out
      → Keeps w cfg
  unfolding load_config
  file-Keeps cfg faithful out w e r = rw (r, faithful out e) refl

  restarted :
      IsQuietAt host flags.config_file
      → (again : Bool) (w : World)
      → read (if again then restart host flags.rc_service w else w) flags.config_file
        ≡ read w flags.config_file
  unfolding restart
  restarted quiet false w = refl
  restarted quiet true w = quiet w _

  on_saved-Keeps :
      KeepsFiles host
      → IsQuietAt host flags.config_file
      → (cfg : HevConfig) → IsFaithful cfg
      → (again : Bool) (found : Option Bytes) (w w' : World) → codec.marshal cfg ≡ found
      → on_saved host flags codec again (written host flags codec w found) ≡ (w', answered none)
      → Keeps w' cfg
  on_saved-Keeps keeps quiet cfg faithful again none w w' m e = absurd (ground (arith, e))
  on_saved-Keeps keeps quiet cfg faithful again (some out) w w' m e =
      behind (write (make_dir w flags.config_dir) flags.config_file out)
        (λ ok.
          keeps (make_dir w flags.config_dir) flags.config_file out ok flags.config_file
          ∙ rw (bytes_eq_self flags.config_file) refl)
        e
    where
      behind :
          (r : World × Bool)
          → (r.1 ≡ true → read r.0 flags.config_file ≡ some out)
          → on_saved host flags codec again r ≡ (w', answered none)
          → Keeps w' cfg
      behind (v, false) h e = absurd (ground (arith, e))
      behind (v, true) h e =
          let same : (if again then restart host flags.rc_service v else v) ≡ w' =
            ap (λ x. x.0) e in
          rw (sym same) (file-Keeps cfg faithful out _ m (restarted quiet again v ∙ h refl))

  -- Where a write that succeeds replaces its file and no other, YAML reads back the configuration and a
  -- restart leaves the file alone, a request behind one that has saved a configuration gets it.
  pub handle_config_returns :
      KeepsFiles host
      → IsQuietAt host flags.config_file
      → (cfg : HevConfig) → IsFaithful cfg
      → (again : Bool) (w w' : World)
      → handle_config host flags codec post (some (cfg, again)) w ≡ (w', answered none)
      → handle_config host flags codec get none w' ≡ (w', answered (some cfg))
  unfolding handle_config save_config
  handle_config_returns keeps quiet cfg faithful again w w' e =
      ap (λ a. (w', a))
        (on_saved-Keeps keeps quiet cfg faithful again (codec.marshal cfg) w w' refl e)
