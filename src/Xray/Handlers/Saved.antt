-- ===== src/Xray/Handlers/Saved.antt =====
-- cmd/xray-controller/main.go: what `loadData` finds behind `saveData`, and behind the ping of nodes.
use opn_box.Base.{◌≡◌, refl, some, Bytes}
use opn_box.Base.Dict.{Dict}
use opn_box.Base.Integers.{ℤ}
use opn_box.Controller.{Host}
use opn_box.Xray.{AppData, pinged}
use opn_box.Xray.Json.{Json}
use opn_box.Xray.Handlers.{Flags, Codec, data_dir, load_data, save_data, ping_end}

module _ (host : Host) (flags : Flags) (codec : Codec) where
  open host use {World, read, write, make_dir}

  -- The data has a JSON text that stands in the file behind a save and is read as the data.
  abbrev pub IsKept : AppData Json → World → Type 0
  IsKept d w =
      (out : Bytes) × (codec.marshal d ≡ some out)
      × (read (write (make_dir w (data_dir host flags codec)) flags.data_file out).0 flags.data_file
          ≡ some out)
      × (codec.unmarshal out ≡ some d)

  pub load_data-save_data :
      (d : AppData Json) (w : World)
      → IsKept d w
      → load_data host flags codec (save_data host flags codec d w) ≡ some d
  unfolding load_data save_data
  load_data-save_data d w (out, text, kept, back) = rw (text, kept, back) refl

  -- Where JSON and the file keep the data that is saved, the data behind a ping is the data loaded when
  -- the ping began, with the times; it does not depend on what other requests have stored since.
  pub load_data-ping_end :
      (d : AppData Json) (results : Dict ℤ) (w : World)
      → IsKept (record d { nodes = pinged results d.nodes }) w
      → load_data host flags codec (ping_end host flags codec d results w)
        ≡ some (record d { nodes = pinged results d.nodes })
  unfolding ping_end
  load_data-ping_end d results w kept =
      load_data-save_data (record d { nodes = pinged results d.nodes }) w kept
