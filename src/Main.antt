-- ===== src/Main.antt =====
-- cmd/flox-controller/main.go: the flags, and what the process registers with the manager before it
-- starts it. The manager is a parameter.
use flox_controller.Prelude.{
  String, Bool, false, not, Option, none, ◌==◌, string_eq, if◌then◌else◌, Result, ok, err, Error,
}
use flox_controller.Api.{FloxEnv}
use flox_controller.Client.{Client}
use flox_controller.Carrier.{ensure_base}
use flox_controller.Action.{◌>>◌, Action, Done, when}
use flox_controller.Provisioner.{ExecProvisioner}

pub record Flags : Type 0 where
  pub health_probe_bind_address : String
  pub env_root : String
  pub gcroot_base : String
  pub ctr_bin : String
  pub containerd_address : String
  pub nsenter_bin : String
  pub systemd_run_bin : String
  pub base_carrier_namespace : String
  pub enable_webhook : Bool
  pub nix_store_class : String
  pub nix_store_size : String

-- The flags before `flag.Parse`, with the variable POD_NAMESPACE.
unfoldable pub default_flags : String → Flags
default_flags pod_namespace = record {
  health_probe_bind_address = ":8081";
  env_root = "/var/lib/flox-controller/envs";
  gcroot_base = "/nix/var/nix/gcroots/flox-runtime/env";
  ctr_bin = "/var/lib/rancher/rke2/bin/ctr";
  containerd_address = "/run/k3s/containerd/containerd.sock";
  nsenter_bin = "/usr/local/bin/nsenter";
  systemd_run_bin = "/run/current-system/sw/bin/systemd-run";
  base_carrier_namespace = if pod_namespace == "" then "flox-system" else pod_namespace;
  enable_webhook = false;
  nix_store_class = "openebs-zfs-shared";
  nix_store_size = "30Gi";
}

-- `inSeparateMountNamespaceFromInit`, from the two links under /proc.
unfoldable pub in_separate_mount_namespace : Result String → Result String → Bool
in_separate_mount_namespace (err e) init = false
in_separate_mount_namespace (ok self) (err e) = false
in_separate_mount_namespace (ok self) (ok init) = not (self == init)

-- What the process does with the manager, in the order of a start: it makes one, registers the
-- controllers, the webhook with its namespace, class and size, the base carrier and the checks, and
-- starts it, which ends when the manager does.
pub data Registration : Type 0 where
  new_manager : String → Registration
  env_controller : String → ExecProvisioner → Registration
  catalog_controller gate_controller : Registration
  pod_webhook : String → String → String → Registration
  base_carrier : String → Registration
  health_check ready_check start : Registration

unfoldable pub provisioner_of : Flags → Result String → Result String → ExecProvisioner
unfolding in_separate_mount_namespace
provisioner_of flags self init = record {
  env_root = flags.env_root;
  gcroot_base = flags.gcroot_base;
  ctr_bin = flags.ctr_bin;
  containerd_address = flags.containerd_address;
  nsenter = if in_separate_mount_namespace self init then flags.nsenter_bin else "";
  systemd_run_bin = flags.systemd_run_bin;
}

module _ {S : Type 0} (perform : Registration → Action S Done) where
  -- `main`, from the flags, the variable NODE_NAME and the links under /proc. An error is the
  -- exit with the status 1.
  unfoldable pub main : Flags → String → Result String → Result String → Action S Done
  unfolding provisioner_of
  main flags node_name self init = do
    perform (new_manager flags.health_probe_bind_address)
    perform (env_controller node_name (provisioner_of flags self init))
    perform catalog_controller
    when flags.enable_webhook (do
      perform (pod_webhook flags.base_carrier_namespace flags.nix_store_class flags.nix_store_size)
      perform gate_controller)
    perform (base_carrier flags.base_carrier_namespace)
    perform health_check
    perform ready_check
    perform start

-- The runnable of the base carrier: a failure is logged.
unfoldable pub carrier_runnable :
    (c : Client) → c.State → Result FloxEnv → String → Option Error × c.State
unfolding ensure_base
carrier_runnable c s decoded namespace = (none, (ensure_base c s decoded namespace).1)
