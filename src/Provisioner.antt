-- ===== src/Provisioner.antt =====
-- internal/provisioner/exec.go: the commands and the paths of the provisioner that runs on a node.
pub mod Environment
pub mod Build
pub mod Roots
pub mod Subtree
pub mod Realize
pub mod Names
pub mod Sources
pub mod Staging
pub mod Selection
pub mod Token
pub mod Links
pub mod Swap
pub mod Atomicity
pub mod Success
pub mod Completion
use flox_controller.Prelude.{
  String, ◌||◌, none, List, [], ◌∷◌, ◌++◌, ◌==◌, string_eq, if◌then◌else◌,
}
use flox_controller.Filepath.{join_path, dir}
use flox_controller.Host.{Command}
use flox_controller.EnvController.Types.{EnvRef}

pub record ExecProvisioner : Type 0 where
  pub env_root : String
  pub gcroot_base : String
  pub ctr_bin : String
  pub containerd_address : String
  pub nsenter : String
  pub systemd_run_bin : String

-- `exec.CommandContext`, with the environment of the process.
abbrev plain : String → List String → Command
plain name args = record { program = name; args = args; env = none }

abbrev enter_host : List String
enter_host = "--target" ∷ "1" ∷ "--mount" ∷ "--pid" ∷ "--net" ∷ "--" ∷ []

module _ (p : ExecProvisioner) where
  unfoldable pub command : String → List String → Command
  command name args =
      if p.nsenter == "" then plain name args else plain p.nsenter (enter_host ++ (name ∷ args))

  unfoldable pub host_scoped_command : String → List String → Command
  unfolding command
  host_scoped_command name args =
      if p.nsenter == "" || p.systemd_run_bin == ""
      then command name args
      else plain p.nsenter (
          enter_host
          ++ (p.systemd_run_bin ∷ "--scope" ∷ "--quiet" ∷ "--collect" ∷ "--" ∷ name ∷ args))

  unfoldable pub env_dir : EnvRef → String
  env_dir ref = join_path (p.env_root ∷ ref.folder ∷ ref.name ∷ [])

  unfoldable pub gcroot_path : EnvRef → String
  gcroot_path ref = join_path (p.gcroot_base ∷ ref.folder ∷ ref.name ∷ [])

  unfoldable pub activation_gcroot_path : EnvRef → String
  activation_gcroot_path ref =
      join_path (dir p.gcroot_base ∷ "activation" ∷ ref.folder ∷ ref.name ∷ [])
