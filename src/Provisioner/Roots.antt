-- ===== src/Provisioner/Roots.antt =====
-- internal/provisioner/exec.go: the links that keep a store path alive, swapped by a rename.
use flox_controller.Prelude.{String, ◌<>◌}
use flox_controller.Action.{◌>>◌, Action, Done, in_context, ignoring_error}
use flox_controller.Filepath.{dir}
use flox_controller.Host.{Host}

module _ (h : Host) where
  unfoldable pub write_gcroot : String → String → Action h.State Done
  write_gcroot gc store_path = do
    in_context "mkdir gcroot dir" (h.mkdir_all (dir gc))
    ignoring_error (h.remove (gc <> ".tmp"))
    in_context "symlink gcroot" (h.symlink store_path (gc <> ".tmp"))
    in_context "rename gcroot" (h.rename (gc <> ".tmp") gc)
