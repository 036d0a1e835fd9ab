-- ===== src/Web.antt =====
-- What the web services of the controllers share: requests, answers, processes and commands.
pub mod Process
pub mod Files
use Prim.Native.String.{String}
use opn_box.Base.{
  ℕ, Bool, true, false, Option, none, some, List, [], ◌∷◌, ◌++◌, Bytes, ltb, if◌then◌else◌,
}
use opn_box.Text.{text, trim_space}
use opn_box.Text.Lines.{split}
use opn_box.Text.Numbers.{positive}
use opn_box.Controller.{Host}

-- `r.Method`, where a handler looks at it.
pub data Method : Type 0 where
  get post other_method : Method

-- The JSON of an answer, or the status of an error. The error's text is left out.
pub data Answer {ℓ} (A : Type ℓ) : Type ℓ where
  answered : A → Answer A
  failed : ℕ → Answer A

abbrev pub bad_request : ℕ
bad_request = 400

abbrev pub forbidden : ℕ
forbidden = 403

abbrev pub not_found : ℕ
not_found = 404

abbrev pub not_allowed : ℕ
not_allowed = 405

abbrev pub internal_error : ℕ
internal_error = 500

-- What a handler answers, and the world behind it.
abbrev pub Handled : (host : Host) → Type 0 → Type 0
Handled host A = host.World × Answer A

abbrev pub or_zero : Option ℕ → ℕ
or_zero (some n) = n
or_zero none = 0

abbrev pub first_line : List Bytes → Bytes
first_line [] = []
first_line (l ∷ ls) = l

-- The process id in the output of `pgrep`, 0 where there is none.
unfoldable pub pid_of : Bool → Bytes → ℕ
pid_of false out = 0
pid_of true out = or_zero (positive (first_line (split 10 (trim_space out))))

module _ (host : Host) where
  open host use {World, command}

  -- `exec.Command("pgrep", "-x", proc)`
  unfoldable pub pgrep : Bytes → World → World × ℕ
  pgrep proc w =
      let (w', ok, out) = command w (text "pgrep" ∷ text "-x" ∷ proc ∷ []) in (w', pid_of ok out)

  abbrev pub service_command : Bytes → Bytes → List Bytes
  service_command service action = text "service" ∷ service ∷ action ∷ []

  abbrev pub rc_command : Bytes → Bytes → List Bytes
  rc_command service action = (text "/usr/local/etc/rc.d/" ++ service) ∷ action ∷ []

  -- The restart by `service`; its outcome is dropped.
  unfoldable pub restart : Bytes → World → World
  restart service w = (command w (service_command service (text "onerestart"))).0

  -- A restart by `service` and one by the script; their outcomes are dropped.
  unfoldable pub restart_twice : Bytes → World → World
  restart_twice service w =
      (command (command w (service_command service (text "onerestart"))).0
        (rc_command service (text "onerestart"))).0

  -- A command by `service`, and by the script if that fails.
  unfoldable pub run_service : Bytes → Bytes → World → World × Bool × Bytes
  run_service service action w =
      let (w', ok, out) = command w (service_command service action) in
      if ok then (w', ok, out) else command w' (rc_command service action)
