-- ===== src/Provisioner/Realize.antt =====
-- internal/provisioner/exec.go: the realisation of an environment on the node.
use flox_controller.Prelude.{
  String, ◌<>◌, not, List, [], ◌∷◌, ◌++◌, ◌==◌, string_eq, if◌then◌else◌, Option, none, some, ok,
}
use flox_controller.Action.{◌>>=◌, ◌>>◌, Action, Done, pure, reads, when, in_context}
use flox_controller.Filepath.{join_path}
use flox_controller.Host.{Host, content_at}
use flox_controller.EnvController.Types.{EnvRef, RealizeRequest, RealizeResult}
use flox_controller.Provisioner.{
  ExecProvisioner, command, host_scoped_command, env_dir, gcroot_path, activation_gcroot_path,
}
use flox_controller.Provisioner.Build.{run_flox, build_env}
use flox_controller.Provisioner.Roots.{write_gcroot}
use flox_controller.Provisioner.Subtree.{file_in, add_env_subtree}

abbrev pub or_empty : Option String → String
or_empty none = ""
or_empty (some text) = text

unfoldable pub flox_env_dir : ExecProvisioner → EnvRef → String
unfolding env_dir
flox_env_dir p ref = file_in (file_in (env_dir p ref) ".flox") "env"

module _ (h : Host) (p : ExecProvisioner) where
  -- The source directory, up to the lock.
  unfoldable pub write_sources : RealizeRequest → Action h.State Done
  unfolding flox_env_dir env_dir
  write_sources req = do
    let flox_env = flox_env_dir p req.ref
    in_context ("mkdir " <> flox_env) (h.mkdir_all flox_env)
    in_context "write manifest.toml"
        (h.write_file (file_in flox_env "manifest.toml") req.manifest_toml)
    in_context "write env.json" (
        h.write_file (file_in (file_in (env_dir p req.ref) ".flox") "env.json")
          ("{\"name\": " <> (h.quote req.ref.name <> ", \"version\": 1}\n")))
    when (not (req.lock == "")) (
        in_context "write manifest.lock" (h.write_file (file_in flox_env "manifest.lock") req.lock))

  unfoldable pub import_args : String → List String
  import_args tar =
      (if p.containerd_address == "" then [] else "--address" ∷ p.containerd_address ∷ [])
      ++ ("-n" ∷ "k8s.io" ∷ "images" ∷ "import" ∷ tar ∷ [])

  unfoldable pub containerize_and_import : String → Action h.State Done
  unfolding host_scoped_command command run_flox import_args
  containerize_and_import dir = do
    let tar = join_path (dir ∷ ".flox" ∷ "containerize.tar" ∷ [])
    in_context ("flox containerize " <> dir)
        (run_flox h (host_scoped_command p "flox" ("containerize" ∷ "-d" ∷ dir ∷ "-f" ∷ tar ∷ [])))
    in_context "ctr images import"
        (h.run (command p (if p.ctr_bin == "" then "ctr" else p.ctr_bin) (import_args tar)))
    pure tt

  -- `Realize`
  unfoldable pub realize : RealizeRequest → Action h.State RealizeResult
  unfolding flox_env_dir write_sources build_env add_env_subtree gcroot_path activation_gcroot_path
      write_gcroot containerize_and_import
  realize req = do
    let flox_env = flox_env_dir p req.ref
    write_sources req
    activation ← build_env h p (env_dir p req.ref) "dev"
    subtree ← add_env_subtree h p req.ref flox_env
    write_gcroot h (gcroot_path p req.ref) subtree
    write_gcroot h (activation_gcroot_path p req.ref) activation
    when (req.consumption == "image") (containerize_and_import (env_dir p req.ref))
    reads (λ s. ok (record {
      store_path = subtree;
      env_path = env_dir p req.ref;
      gcroot_path = gcroot_path p req.ref;
      lock = or_empty (content_at h s (file_in flox_env "manifest.lock"));
    }))

  -- `Prune`
  unfoldable pub prune : List EnvRef → Action h.State Done
  prune keep = pure tt
