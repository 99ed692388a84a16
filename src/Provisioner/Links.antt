-- ===== src/Provisioner/Links.antt =====
-- The steps of a realisation that leave a link as it is.
use flox_controller.Prelude.{String, true, false, string_eq, Option, ◌≡◌}
use flox_controller.Action.Leaves.{Leaves, leaves_rules}
use flox_controller.Host.{Host, Command, link_at}
use flox_controller.Host.Laws.{IsPlain, KeepsLinks, beneath}
use flox_controller.EnvController.Types.{EnvRef, RealizeRequest}
use flox_controller.Provisioner.{ExecProvisioner}
use flox_controller.Provisioner.Build.{run_flox, build_env}
use flox_controller.Provisioner.Subtree.{
  add_env_subtree, staging_of, add_to_store, stage, stage_file,
}
use flox_controller.Provisioner.Realize.{write_sources, containerize_and_import}

abbrev pub link_of : (h : Host) → String → h.State → Option String
link_of h q s = link_at h s q

module _ (h : Host) (plain : IsPlain h) (q : String) where
  pub mkdir_all-Leaves : (path : String) → Leaves (link_of h q) (h.mkdir_all path)
  mkdir_all-Leaves path = record { at = λ s. plain.link-mkdir_all s path q }

  write_file-Leaves : (path text : String) → Leaves (link_of h q) (h.write_file path text)
  write_file-Leaves path text = record { at = λ s. plain.link-write_file s path text q }

  remove_all-Leaves :
      (path : String) → beneath q path ≡ false → Leaves (link_of h q) (h.remove_all path)
  remove_all-Leaves path out = record { at = λ s. plain.link-remove_all s path q out }

  pub write_sources-Leaves :
      (p : ExecProvisioner) (req : RealizeRequest) → Leaves (link_of h q) (write_sources h p req)
  unfolding write_sources
  write_sources-Leaves p req = search (leaves_rules, mkdir_all-Leaves, write_file-Leaves) depth 12

  stage-Leaves : (flox_env staging : String) → Leaves (link_of h q) (stage h flox_env staging)
  unfolding stage stage_file
  stage-Leaves flox_env staging =
      search (leaves_rules, mkdir_all-Leaves, write_file-Leaves) depth 12

  module _ (folder : String) (keeps : KeepsLinks h folder) (inside : beneath q folder ≡ true) where
    run-Leaves : (cmd : Command) → Leaves (link_of h q) (h.run cmd)
    run-Leaves cmd = record { at = λ s. keeps.link-run s cmd q inside }

    run_flox-Leaves : (cmd : Command) → Leaves (link_of h q) (run_flox h cmd)
    unfolding run_flox
    run_flox-Leaves cmd = record { at = λ s. keeps.link-run s _ q inside }

    pub build_env-Leaves :
        (p : ExecProvisioner) (path mode : String) → Leaves (link_of h q) (build_env h p path mode)
    unfolding build_env
    build_env-Leaves p path mode = search (leaves_rules, run_flox-Leaves) depth 12

    pub add_to_store-Leaves :
        (p : ExecProvisioner) (staging : String) → Leaves (link_of h q) (add_to_store h p staging)
    unfolding add_to_store
    add_to_store-Leaves p staging = search (leaves_rules, run_flox-Leaves) depth 12

    pub containerize_and_import-Leaves :
        (p : ExecProvisioner) (path : String)
        → Leaves (link_of h q) (containerize_and_import h p path)
    unfolding containerize_and_import
    containerize_and_import-Leaves p path =
        search (leaves_rules, run_flox-Leaves, run-Leaves) depth 12

    pub add_env_subtree-Leaves :
        (p : ExecProvisioner) (ref : EnvRef) (flox_env : String)
        → beneath q (staging_of p ref) ≡ false
        → Leaves (link_of h q) (add_env_subtree h p ref flox_env)
    unfolding add_env_subtree
    add_env_subtree-Leaves p ref flox_env out =
        search (leaves_rules, remove_all-Leaves, stage-Leaves, add_to_store-Leaves) depth 12
