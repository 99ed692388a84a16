-- ===== src/Provisioner/Completion.antt =====
-- A whole realisation on a reliable host.
use flox_controller.Prelude.{String, ok, ◌==◌, string_eq}
use flox_controller.Action.{◌>>◌, Action, reads, when}
use flox_controller.Action.Sure.{Sure}
use flox_controller.Host.{Host, content_at}
use flox_controller.Host.Laws.{IsPlain}
use flox_controller.Host.Reliable.{IsReliable}
use flox_controller.EnvController.Types.{RealizeRequest, RealizeResult}
use flox_controller.Provisioner.{ExecProvisioner, env_dir, gcroot_path, activation_gcroot_path}
use flox_controller.Provisioner.Roots.{write_gcroot}
use flox_controller.Provisioner.Realize.{or_empty, flox_env_dir, containerize_and_import}
use flox_controller.Provisioner.Sources.{lock_path}

module _ (h : Host) (plain : IsPlain h) (reliable : IsReliable h) (p : ExecProvisioner) where
  -- What a realisation does once it has both store paths.
  abbrev link_both : RealizeRequest → String → String → Action h.State RealizeResult
  link_both req activation subtree = do
    write_gcroot h (gcroot_path p req.ref) subtree
    write_gcroot h (activation_gcroot_path p req.ref) activation
    when (req.consumption == "image") (containerize_and_import h p (env_dir p req.ref))
    reads (λ s. ok (record {
      store_path = subtree;
      env_path = env_dir p req.ref;
      gcroot_path = gcroot_path p req.ref;
      lock = or_empty (content_at h s (lock_path (flox_env_dir p req.ref)));
    }))
