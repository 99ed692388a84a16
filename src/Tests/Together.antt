-- ===== src/Tests/Together.antt =====
-- The reconciler and the provisioner on one state: an API server and a node, both in memory.
use flox_controller.Prelude.{ℕ, none, [], Result, ◌≡◌, refl, subst, sym}
use flox_controller.Api.{FloxEnv}
use flox_controller.Client.{Client}
use flox_controller.EnvController.Types.{Reconciler, RealizeRequest, RealizeResult}
use flox_controller.EnvController.Reconcile.{realise}
use flox_controller.EnvController.Linked.{RunsOn, Linked, ref_of, realise-Linked}
use flox_controller.Provisioner.{gcroot_path}
use flox_controller.Provisioner.Realize.{realize}
use flox_controller.Provisioner.Atomicity.{IsApart}
use flox_controller.Tests.Memory.{World, memory}
use flox_controller.Tests.Environments.{due, world_of, reconciler}
use flox_controller.Tests.Node.{Node, node, node-IsPlain}
use flox_controller.Tests.Provisioning.{p, web, fresh, keeps, web-IsApart}

abbrev Both : Type 0
Both = World × Node

abbrev beside : {A : Type 0} → Both → Result A × World → Result A × Both
beside s o = (o.0, (o.1, s.1))

abbrev shared : Client
shared = record {
  State = Both;
  get_env = λ s. memory.get_env s.0;
  list_envs = λ s. memory.list_envs s.0;
  list_envs_in = λ s. memory.list_envs_in s.0;
  create_env = λ s a. beside s (memory.create_env s.0 a);
  update_env = λ s a. beside s (memory.update_env s.0 a);
  patch_env = λ s a b. beside s (memory.patch_env s.0 a b);
  patch_env_status = λ s a b. beside s (memory.patch_env_status s.0 a b);
  get_catalog = λ s. memory.get_catalog s.0;
  list_catalogs = λ s. memory.list_catalogs s.0;
  list_catalogs_in = λ s. memory.list_catalogs_in s.0;
  patch_catalog_status = λ s a b. beside s (memory.patch_catalog_status s.0 a b);
  get_git_repository = λ s. memory.get_git_repository s.0;
  get_pod = λ s. memory.get_pod s.0;
  list_pods = λ s. memory.list_pods s.0;
  update_pod = λ s a. beside s (memory.update_pod s.0 a);
  list_workloads = λ s. memory.list_workloads s.0;
  patch_workload = λ s a b. beside s (memory.patch_workload s.0 a b);
  create_claim = λ s a. beside s (memory.create_claim s.0 a);
}

abbrev on_node : Both → ℕ → RealizeRequest → Result RealizeResult × Both
on_node s timeout req = let (res, n) = realize node p req s.1 in (res, (s.0, n))

abbrev together : Reconciler
together = record {
  client = shared;
  conditions = reconciler.conditions;
  node_name = "n1";
  realize_timeout = 60;
  realize_slots = 1;
  realize = on_node;
  wait_slot = λ s. (none, s);
  unmarshal = reconciler.unmarshal;
  marshal = reconciler.marshal;
  sha256 = reconciler.sha256;
}

together-RunsOn : RunsOn together node p
together-RunsOn = record {
  host_of = λ s. s.1;
  realize_result = λ s timeout req. refl;
  realize_host = λ s timeout req. refl;
  patch_env_status = λ s base sent. refl;
  patch_workload = λ s base sent. refl;
}

abbrev in_tools : FloxEnv
in_tools = record due { spec = record (due.spec) { folder = "tools" } }

abbrev both : Both
both = (world_of in_tools [], fresh)

its_ref : ref_of together node p together-RunsOn both in_tools ≡ web
unfolding flox_controller.EnvController.Reconcile.folder_of
    flox_controller.EnvController.Status.mark_realizing flox_controller.Prelude.string_eq
its_ref = refl

in_tools-IsApart :
    IsApart p
      (ref_of together node p together-RunsOn both in_tools)
      (gcroot_path p (ref_of together node p together-RunsOn both in_tools))
in_tools-IsApart = subst (λ ref. IsApart p ref (gcroot_path p ref)) (sym its_ref) web-IsApart

no_error : (realise together both in_tools "v = 1").error ≡ none
unfolding flox_controller.Action.deferring flox_controller.Action.ignoring_error
    flox_controller.Action.in_context flox_controller.Action.◌>>=◌
    flox_controller.EnvController.Reconcile.consumption_of
    flox_controller.EnvController.Reconcile.deliver
    flox_controller.EnvController.Reconcile.folder_of
    flox_controller.EnvController.Reconcile.lock_of
    flox_controller.EnvController.Reconcile.record_realized
    flox_controller.EnvController.Reconcile.timeout_of
    flox_controller.EnvController.Restart.hex_digit flox_controller.EnvController.Restart.hex_prefix
    flox_controller.EnvController.Restart.join_errors
    flox_controller.EnvController.Restart.lock_digest
    flox_controller.EnvController.Restart.needs_stamp
    flox_controller.EnvController.Restart.restart_consumers
    flox_controller.EnvController.Restart.roll flox_controller.EnvController.Restart.stamp_consumer
    flox_controller.EnvController.Restart.stamp_consumers
    flox_controller.EnvController.Restart.stamped flox_controller.EnvController.Restart.target_of
    flox_controller.EnvController.Status.fail flox_controller.EnvController.Status.mark_realizing
    flox_controller.EnvController.Status.realized_env
    flox_controller.EnvController.Status.upsert_realization flox_controller.Filepath.clean
    flox_controller.Filepath.dir flox_controller.Filepath.elements
    flox_controller.Filepath.join_path flox_controller.Filepath.render flox_controller.Filepath.step
    flox_controller.Filepath.up flox_controller.Filepath.walk flox_controller.Floxenv.collect_refs
    flox_controller.Floxenv.environ flox_controller.Floxenv.parse_ref flox_controller.Floxenv.ref_eq
    flox_controller.Floxenv.refs_from_annotations flox_controller.Prelude.Dict.insert
    flox_controller.Prelude.Dict.lookup flox_controller.Prelude.has_prefix
    flox_controller.Prelude.has_suffix flox_controller.Prelude.join flox_controller.Prelude.nat_eq
    flox_controller.Prelude.split_last flox_controller.Prelude.string_eq
    flox_controller.Prelude.strip_prefix flox_controller.Prelude.trim_left
    flox_controller.Prelude.trim_right flox_controller.Prelude.trim_space
    flox_controller.Provisioner.Build.build_env flox_controller.Provisioner.Build.pick
    flox_controller.Provisioner.Build.run_flox flox_controller.Provisioner.Build.store_target
    flox_controller.Provisioner.Environment.config_entry
    flox_controller.Provisioner.Environment.flox_command_env
    flox_controller.Provisioner.Environment.read_github_token
    flox_controller.Provisioner.Environment.without_nix_config
    flox_controller.Provisioner.Realize.containerize_and_import
    flox_controller.Provisioner.Realize.flox_env_dir flox_controller.Provisioner.Realize.import_args
    flox_controller.Provisioner.Realize.write_sources flox_controller.Provisioner.Roots.write_gcroot
    flox_controller.Provisioner.Subtree.add_env_subtree
    flox_controller.Provisioner.Subtree.add_to_store flox_controller.Provisioner.Subtree.stage
    flox_controller.Provisioner.Subtree.stage_file flox_controller.Provisioner.Subtree.staging_of
    flox_controller.Provisioner.activation_gcroot_path flox_controller.Provisioner.command
    flox_controller.Provisioner.env_dir flox_controller.Provisioner.host_scoped_command gcroot_path
    native.Mathlib.Decide.ℕ_discrete realise realize
no_error = refl

realise-Linked_example :
    Linked together node p together-RunsOn
      (gcroot_path p (ref_of together node p together-RunsOn both in_tools))
      (realise together both in_tools "v = 1").state
realise-Linked_example =
    realise-Linked together node p together-RunsOn node-IsPlain keeps both in_tools "v = 1"
      in_tools-IsApart no_error
