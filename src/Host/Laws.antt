-- ===== src/Host/Laws.antt =====
-- What the operating system documents of the files and the links of a host.
use flox_controller.Prelude.{
  String, ◌<>◌, Bool, ◌||◌, false, true, none, some, ◌==◌, string_eq, has_prefix, ok, ◌≡◌, ◌≢◌,
}
use flox_controller.Host.{Host, Command, link_at, content_at}

-- The path itself, or one below it.
abbrev pub beneath : String → String → Bool
beneath path folder = path == folder || has_prefix path (folder <> "/")

-- No directory on the way to a path is a link, and no file that is read or written is one, so that
-- two paths name two places. A call that fails may have done a part of its work, except a rename.
pub record IsPlain (h : Host) : Type 0 where
  pub link-mkdir_all :
      (s : h.State) (path q : String) → link_at h (h.mkdir_all path s).1 q ≡ link_at h s q
  pub link-write_file :
      (s : h.State) (path text q : String)
      → link_at h (h.write_file path text s).1 q ≡ link_at h s q
  pub link-remove :
      (s : h.State) (path q : String) → q ≢ path → link_at h (h.remove path s).1 q ≡ link_at h s q
  pub link-remove_all :
      (s : h.State) (path q : String)
      → beneath q path ≡ false
      → link_at h (h.remove_all path s).1 q ≡ link_at h s q
  pub link-symlink :
      (s : h.State) (target path q : String)
      → q ≢ path
      → link_at h (h.symlink target path s).1 q ≡ link_at h s q
  pub link-symlink_self :
      (s : h.State) (target path : String)
      → (h.symlink target path s).0 ≡ ok tt
      → link_at h (h.symlink target path s).1 path ≡ some target
  pub link-rename :
      (s : h.State) (old new q target : String)
      → q ≢ old
      → q ≢ new
      → link_at h s old ≡ some target
      → link_at h (h.rename old new s).1 q ≡ link_at h s q
  pub link-rename_new :
      (s : h.State) (old new target : String)
      → link_at h s old ≡ some target
      → (h.rename old new s).0 ≡ ok tt
      → link_at h (h.rename old new s).1 new ≡ some target
  pub link-rename_old :
      (s : h.State) (old new target : String)
      → old ≢ new
      → link_at h s old ≡ some target
      → (h.rename old new s).0 ≡ ok tt
      → link_at h (h.rename old new s).1 old ≡ none
  pub link-rename_failed :
      (s : h.State) (old new q : String)
      → (h.rename old new s).0 ≢ ok tt
      → link_at h (h.rename old new s).1 q ≡ link_at h s q
  pub content-mkdir_all :
      (s : h.State) (path q : String) → content_at h (h.mkdir_all path s).1 q ≡ content_at h s q
  pub content-remove_all :
      (s : h.State) (path q : String)
      → beneath q path ≡ false
      → content_at h (h.remove_all path s).1 q ≡ content_at h s q
  pub content-remove_all_gone :
      (s : h.State) (path q : String)
      → (h.remove_all path s).0 ≡ ok tt
      → beneath q path ≡ true
      → content_at h (h.remove_all path s).1 q ≡ none
  pub content-write_file :
      (s : h.State) (path text q : String)
      → q ≢ path
      → content_at h (h.write_file path text s).1 q ≡ content_at h s q
  pub content-write_file_self :
      (s : h.State) (path text : String)
      → (h.write_file path text s).0 ≡ ok tt
      → content_at h (h.write_file path text s).1 path ≡ some text

-- The commands leave the links below a directory alone.
pub record KeepsLinks (h : Host) (folder : String) : Type 0 where
  pub link-run :
      (s : h.State) (cmd : Command) (q : String)
      → beneath q folder ≡ true
      → link_at h (h.run cmd s).1 q ≡ link_at h s q
