-- ===== src/Host/Reliable.antt =====
-- A host on which no call fails but for a directory that is missing or a path that is taken.
use flox_controller.Prelude.{String, ◌<>◌, none, some, [], ◌∷◌, ok, split_last, ◌≡◌, ◌≢◌}
use flox_controller.Action.Sure.{Sure}
use flox_controller.Filepath.{dir, join_path}
use flox_controller.Host.{Host, Command, link_at}

-- A name of a file of a directory.
pub record IsName (f : String) : Type 0 where
  pub no_slash : split_last b'/' f ≡ none
  pub no_parent : f ≢ ".."

-- Directories are made, files are removed, and commands end well. A file is written and a link is
-- made where the directory of the path is there; the link, where nothing is. What makes a directory
-- there is that it was made, with those above it; writing, removing and linking keep it.
pub record IsReliable (h : Host) : Type 1 where
  pub HasFolder : h.State → String → Type 0
  pub mkdir_all-Sure : (path : String) → Sure (h.mkdir_all path)
  pub remove_all-Sure : (path : String) → Sure (h.remove_all path)
  pub run-Sure : (cmd : Command) → Sure (h.run cmd)
  pub folder-mkdir_all :
      (s : h.State) (path f : String)
      → IsName f
      → HasFolder (h.mkdir_all path s).1 (join_path (path ∷ f ∷ []))
  pub folder-mkdir_all_self : (s : h.State) (path : String) → HasFolder (h.mkdir_all path s).1 path
  pub folder-mkdir_all_dir :
      (s : h.State) (path : String) → HasFolder (h.mkdir_all (dir path) s).1 path
  pub folder_beside :
      (s : h.State) (path f g : String)
      → IsName f
      → IsName g
      → HasFolder s (join_path (path ∷ f ∷ []))
      → HasFolder s (join_path (path ∷ g ∷ []))
  pub folder_suffixed :
      (s : h.State) (path : String) → HasFolder s path → HasFolder s (path <> ".tmp")
  pub folder-write_file :
      (s : h.State) (path text q : String)
      → HasFolder s q
      → HasFolder (h.write_file path text s).1 q
  pub folder-remove :
      (s : h.State) (path : String) → HasFolder s path → HasFolder (h.remove path s).1 path
  pub write_file_ok :
      (s : h.State) (path text : String) → HasFolder s path → (h.write_file path text s).0 ≡ ok tt
  pub link-remove_self : (s : h.State) (path : String) → link_at h (h.remove path s).1 path ≡ none
  pub symlink_ok :
      (s : h.State) (target path : String)
      → HasFolder s path
      → link_at h s path ≡ none
      → (h.symlink target path s).0 ≡ ok tt
  pub rename_ok :
      (s : h.State) (old new target : String)
      → link_at h s old ≡ some target
      → (h.rename old new s).0 ≡ ok tt
