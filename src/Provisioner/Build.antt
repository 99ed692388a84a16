-- ===== src/Provisioner/Build.antt =====
-- internal/provisioner/exec.go: the build of an environment, and the choice of its closure.
use flox_controller.Prelude.{
  String, ◌<>◌, not, ◌&&◌, Option, none, some, List, [], ◌∷◌, ◌==◌, string_eq, if◌then◌else◌,
  has_prefix, has_suffix, Result, ok, err, Error, other,
}
use flox_controller.Action.{◌>>=◌, ◌>>◌, Action, reads, in_context}
use flox_controller.Filepath.{join_path}
use flox_controller.Host.{Host, Command}
use flox_controller.Provisioner.{ExecProvisioner, host_scoped_command}
use flox_controller.Provisioner.Environment.{flox_command_env}

-- The target of an entry of the run directory that the loop does not skip.
unfoldable pub store_target : Result String → String → Option String
store_target (err e) name = none
store_target (ok target) name =
    if not (has_prefix name ".") && has_prefix target "/nix/store/" then some target else none

-- The loop over the entries, from the last target that it fell back on.
unfoldable pub pick : (String → Result String) → String → List String → String → Option String
unfolding store_target
pick read mode [] fallback = if fallback == "" then none else some fallback
pick read mode (name ∷ names) fallback = elim (store_target (read name) name) [
  | none ↦ pick read mode names fallback
  | some target ↦
      let rest = pick read mode names target in
      if has_suffix name ("-" <> mode) then some target else rest
]

-- The path that was found, or an error.
abbrev pub or_error : Error → Option String → Result String
or_error e none = err e
or_error e (some target) = ok target

module _ (h : Host) where
  -- `cmd.Env = floxCommandEnv()`, read when the command is built.
  unfoldable pub run_flox : Command → Action h.State String
  unfolding flox_command_env
  run_flox cmd s = h.run (record cmd { env = some (flox_command_env h s) }) s

unfoldable pub activate_command : ExecProvisioner → String → String → Command
unfolding host_scoped_command
activate_command p dir mode =
    host_scoped_command p "flox"
      ("--verbose" ∷ "activate" ∷ "--mode" ∷ mode ∷ "-d" ∷ dir ∷ "--" ∷ "true" ∷ [])

module _ (h : Host) (p : ExecProvisioner) where
  unfoldable pub build_env : String → String → Action h.State String
  unfolding activate_command run_flox pick
  build_env dir mode = do
    in_context ("flox activate (--mode " <> (mode <> (") " <> dir)))
        (run_flox h (activate_command p dir mode))
    let run_dir = join_path (dir ∷ ".flox" ∷ "run" ∷ [])
    names ← in_context ("read " <> run_dir) (reads (λ s. h.read_dir s run_dir))
    reads (λ s.
        or_error (other ("no /nix/store env path under " <> run_dir))
          (pick (λ name. h.readlink s (join_path (run_dir ∷ name ∷ []))) mode names ""))
