-- ===== src/Web/Process.antt =====
-- The process that a controller watches, by its name and the file with its process id.
use opn_box.Base.{ℕ, Bool, ◌&&◌, Option, none, some, [], ◌∷◌, Bytes, ltb, if◌then◌else◌}
use opn_box.Text.{text, trim_space}
use opn_box.Text.Numbers.{positive}
use opn_box.Web.{pgrep, or_zero}
use opn_box.Controller.{Host}

abbrev pub pid_in_file : Option Bytes → ℕ
pid_in_file none = 0
pid_in_file (some out) = or_zero (positive (trim_space out))

module _ (host : Host) (process pid_file : Bytes) where
  open host use {World, read, command, sleep}

  -- The process id of `pgrep`, and else of the file.
  unfoldable pub process_id : World → World × ℕ
  process_id w =
      let (w', pid) = pgrep host process w in
      (w', if ltb 0 pid then pid else pid_in_file (read w' pid_file))

  abbrev killed : World × ℕ → World × ℕ
  killed (w, pid) =
      if ltb 0 pid
      then process_id
          (sleep (command w (text "pkill" ∷ text "-KILL" ∷ text "-x" ∷ process ∷ [])).0 200)
      else (w, pid)

  -- The end of a stop: after a pause the process is killed if it is still there.
  unfoldable pub settled : Bool → World × ℕ → World × ℕ
  settled stop (w, pid) = if stop && ltb 0 pid then killed (process_id (sleep w 300)) else (w, pid)
