-- ===== src/Provisioner/Subtree.antt =====
-- internal/provisioner/exec.go: the manifest and the lock of an environment, added to the store.
use flox_controller.Prelude.{String, ◌<>◌, [], ◌∷◌, trim_space}
use flox_controller.Action.{◌>>=◌, ◌>>◌, Action, Done, pure, reads, in_context, deferring}
use flox_controller.Filepath.{join_path}
use flox_controller.Host.{Host}
use flox_controller.EnvController.Types.{EnvRef}
use flox_controller.Provisioner.{ExecProvisioner, command, env_dir}
use flox_controller.Provisioner.Build.{run_flox}

abbrev pub file_in : String → String → String
file_in folder name = join_path (folder ∷ name ∷ [])

unfoldable pub staging_of : ExecProvisioner → EnvRef → String
unfolding env_dir
staging_of p ref =
    file_in (env_dir p ref) ("flox-env-" <> (ref.folder <> ("-" <> (ref.name <> "-subtree"))))

module _ (h : Host) where
  unfoldable pub stage_file : String → String → String → Action h.State Done
  stage_file flox_env staging_env f = do
    text ←
        in_context ("read " <> (f <> " for subtree"))
          (reads (λ s. h.read_file s (file_in flox_env f)))
    in_context ("write subtree " <> f) (h.write_file (file_in staging_env f) text)

  unfoldable pub stage : String → String → Action h.State Done
  unfolding stage_file
  stage flox_env staging = do
    let staging_env = file_in staging "env"
    in_context ("mkdir subtree staging " <> staging_env) (h.mkdir_all staging_env)
    stage_file flox_env staging_env "manifest.toml"
    stage_file flox_env staging_env "manifest.lock"

  module _ (p : ExecProvisioner) where
    -- `nix-store --add`
    unfoldable pub add_to_store : String → Action h.State String
    unfolding command run_flox
    add_to_store staging = do
      out ←
          in_context ("nix-store --add " <> staging)
            (run_flox h (command p "nix-store" ("--add" ∷ staging ∷ [])))
      pure (trim_space out)

    unfoldable pub add_env_subtree : EnvRef → String → Action h.State String
    unfolding staging_of stage add_to_store
    add_env_subtree ref flox_env = do
      let staging = staging_of p ref
      in_context ("clean subtree staging " <> staging) (h.remove_all staging)
      deferring (h.remove_all staging) (do stage flox_env staging; add_to_store staging)
