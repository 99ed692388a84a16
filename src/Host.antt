-- ===== src/Host.antt =====
-- The node that the provisioner works on: Go's os and os/exec. The host is a parameter, with one
-- function for each call; file modes and the error streams of commands are left out.
pub mod Laws
pub mod Reliable
use flox_controller.Prelude.{
  String, ◌<>◌, Option, none, some, List, [], ◌∷◌, Result, ok, err, strip_prefix,
}
use flox_controller.Action.{Action, Done}

-- exec.Cmd. Where `env` is nil the command has the environment of the process.
pub record Command : Type 0 where
  pub program : String
  pub args : List String
  pub env : Option (List String)

-- `run` is `cmd.Output`, the text of the standard output, or the error of a command that failed or
-- was stopped at the deadline; `cmd.Run` drops the text. `read_dir` has the entries' names.
pub record Host : Type 1 where
  pub State : Type 0
  pub environ : State → List String
  pub read_file : State → String → Result String
  pub read_dir : State → String → Result (List String)
  pub readlink : State → String → Result String
  pub mkdir_all : String → Action State Done
  pub write_file : String → String → Action State Done
  pub remove : String → Action State Done
  pub remove_all : String → Action State Done
  pub symlink : String → String → Action State Done
  pub rename : String → String → Action State Done
  pub run : Command → Action State String
  pub quote : String → String

abbrev pub to_option {ℓ} : {A : Type ℓ} → Result A → Option A
to_option (ok a) = some a
to_option (err e) = none

-- The value of the first entry of a name.
abbrev pub value_in : String → List String → String
value_in name [] = ""
value_in name (e ∷ env) = elim (strip_prefix (name <> "=") e) [
  | some value ↦ value
  | none ↦ value_in name env
]

module _ (h : Host) where
  -- `os.Getenv`
  abbrev pub getenv : h.State → String → String
  getenv s name = value_in name (h.environ s)

  abbrev pub link_at : h.State → String → Option String
  link_at s path = to_option (h.readlink s path)

  abbrev pub content_at : h.State → String → Option String
  content_at s path = to_option (h.read_file s path)
