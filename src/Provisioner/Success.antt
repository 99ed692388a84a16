-- ===== src/Provisioner/Success.antt =====
-- A realisation succeeds on a reliable host where flox leaves what it documents.
use flox_controller.Prelude.{
  String, Bool, true, false, not, none, some, List, ok, err, Error, ◌≡◌, ◌≢◌, refl, ◌∙◌, Option,
  Result, arith, split_last, nat_eq, ◌==◌, string_eq,
}
use flox_controller.Action.{
  ◌>>=◌, Action, Done, reads, when, in_context, ignoring_error, Ends-bind, Ends-cases,
  Ends-in_context, Ends-mono, Ends-value,
}
use flox_controller.Action.Sure.{Sure, Returns, Returns-Sure, Returns-value, sure_rules}
use flox_controller.Host.{Host, Command, link_at, content_at, to_option}
use flox_controller.Host.Laws.{IsPlain}
use flox_controller.Host.Reliable.{IsReliable, IsName}
use flox_controller.Filepath.{dir}
use flox_controller.EnvController.Types.{EnvRef, RealizeRequest}
use flox_controller.Provisioner.{ExecProvisioner, env_dir}
use flox_controller.Provisioner.Build.{or_error, pick, build_env, activate_command, run_flox}
use flox_controller.Provisioner.Roots.{write_gcroot}
use flox_controller.Provisioner.Subtree.{file_in, stage, stage_file, add_to_store}
use flox_controller.Provisioner.Realize.{flox_env_dir, write_sources, containerize_and_import}
use flox_controller.Provisioner.Sources.{toml_path, lock_path, toml_last, lock_last, env-ne-empty}
use flox_controller.Provisioner.Staging.{Copied, stage_file-Ends}
use flox_controller.Filepath.Files.{ne_by_last}
use flox_controller.Provisioner.Selection.{run_dir, read_run, Leads, NoneLeads-or_error}
use flox_controller.Provisioner.Names.{tmp_of}

-- The manifest is what it was, there is a lock, and the run directory has a visible link into the
-- store.
pub record IsActivated (h : Host) (p : ExecProvisioner) (ref : EnvRef) (s s' : h.State)
    : Type 0 where
  pub lock : String
  pub names : List String
  pub name : String
  pub target : String
  pub kept :
      content_at h s' (toml_path (flox_env_dir p ref))
      ≡ content_at h s (toml_path (flox_env_dir p ref))
  pub locked : content_at h s' (lock_path (flox_env_dir p ref)) ≡ some lock
  pub listed : h.read_dir s' (run_dir (env_dir p ref)) ≡ ok names
  pub leads : Leads (read_run h p (env_dir p ref) "dev" s') "dev" names name target

-- `flox activate` leaves an environment so, whatever the environment of the command is.
pub record IsActivating (h : Host) (p : ExecProvisioner) (ref : EnvRef) : Type 0 where
  pub run-IsActivated :
      (s : h.State) (env : Option (List String))
      → IsActivated h p ref s
          (h.run (record (activate_command p (env_dir p ref) "dev") { env = env }) s).1

not_both : {A : Type 0} {a : A} {e : Error} (r : Result A) → r ≡ ok a → r ≡ err e → ⊥
not_both r good bad = cc

when-Returns :
    {S : Type 0} (b : Bool) (m : Action S Done) (s : S)
    → Returns (λ _ _. Unit {0}) (m s)
    → Returns (λ _ _. Unit {0}) (when b m s)
when-Returns true m s held = record { at = held.at }
when-Returns false m s held = record { at = tt }

toml-IsName : IsName "manifest.toml"
unfolding split_last nat_eq
toml-IsName = record { no_slash = refl; no_parent = λ e. cc }

lock-IsName : IsName "manifest.lock"
unfolding split_last nat_eq
lock-IsName = record { no_slash = refl; no_parent = λ e. cc }

env-IsName : IsName "env"
unfolding split_last nat_eq
env-IsName = record { no_slash = refl; no_parent = λ e. cc }

json-IsName : IsName "env.json"
unfolding split_last nat_eq
json-IsName = record { no_slash = refl; no_parent = λ e. cc }

module _ (h : Host) (plain : IsPlain h) (reliable : IsReliable h) (p : ExecProvisioner) where
  open reliable use {
    HasFolder, mkdir_all-Sure, run-Sure, folder-mkdir_all, folder-mkdir_all_self,
    folder-mkdir_all_dir, folder_beside, folder_suffixed, folder-write_file, folder-remove,
  }

  write_file-Returns :
      {P : h.State → Type 0} (path text : String) (s : h.State)
      → HasFolder s path
      → P (h.write_file path text s).1
      → Returns (λ _ s'. P s') (h.write_file path text s)
  write_file-Returns path text s has held =
      Ends-cases (h.write_file path text s) (λ a done. held)
        (λ e bad. not_both _ (reliable.write_file_ok s path text has) bad)

  run_flox-Sure : (cmd : Command) → Sure (run_flox h cmd)
  unfolding run_flox
  run_flox-Sure cmd = record { at = λ s. (run-Sure _).at s }

  -- The files are written into directories that the first call makes.
  pub write_sources-Returns :
      (req : RealizeRequest) (s : h.State) → Returns (λ _ _. Unit {0}) (write_sources h p req s)
  unfolding write_sources flox_env_dir
  write_sources-Returns req s =
      let flox = file_in (env_dir p req.ref) ".flox" in
      let env = file_in flox "env" in
      Ends-bind
        {P = λ _ s'.
          HasFolder s' (file_in env "manifest.toml")
          × HasFolder s' (file_in env "manifest.lock")
          × HasFolder s' (file_in flox "env.json")}
        _ _ s
        (Ends-in_context _ _ s (
          Returns-Sure _ s (mkdir_all-Sure env) (λ a e. (
            folder-mkdir_all s env "manifest.toml" toml-IsName,
            folder-mkdir_all s env "manifest.lock" lock-IsName,
            folder_beside _ flox "env" "env.json" env-IsName json-IsName
                (folder-mkdir_all_self s env),
          ))))
        λ _ s₁ (toml, lock, json).
          Ends-bind
            {P = λ _ s'.
              HasFolder s' (file_in env "manifest.lock") × HasFolder s' (file_in flox "env.json")}
            _ _ s₁
            (Ends-in_context _ _ s₁ (
              write_file-Returns (file_in env "manifest.toml") _ s₁ toml
                (folder-write_file s₁ _ _ _ lock, folder-write_file s₁ _ _ _ json)))
            λ _ s₂ (lock, json).
              Ends-bind {P = λ _ s'. HasFolder s' (file_in env "manifest.lock")} _ _ s₂
                (Ends-in_context _ _ s₂ (
                  write_file-Returns (file_in flox "env.json") _ s₂ json
                    (folder-write_file s₂ _ _ _ lock)))
                λ _ s₃ lock. when-Returns (not (req.lock == "")) _ s₃ (
                  Ends-in_context _ _ s₃
                    (write_file-Returns (file_in env "manifest.lock") _ s₃ lock tt))

  pub add_to_store-Sure : (staging : String) → Sure (add_to_store h p staging)
  unfolding add_to_store
  add_to_store-Sure staging = search (sure_rules, run_flox-Sure) depth 12

  pub containerize_and_import-Sure : (path : String) → Sure (containerize_and_import h p path)
  unfolding containerize_and_import
  containerize_and_import-Sure path = search (sure_rules, run_flox-Sure, run-Sure) depth 12

  -- The temporary link is removed first, so that one that was left over does no harm.
  write_gcroot-Returns :
      (gc target : String) (s : h.State) → Returns (λ _ _. Unit {0}) (write_gcroot h gc target s)
  unfolding write_gcroot ignoring_error
  write_gcroot-Returns gc target s =
      Ends-bind _ _ s
        (Ends-in_context _ _ s (
          Returns-Sure {P = λ _ s'. HasFolder s' (tmp_of gc)} _ s (mkdir_all-Sure (dir gc))
            (λ a e. folder_suffixed _ gc (folder-mkdir_all_dir s gc))))
        λ _ s₁ has.
          Ends-bind {P = λ _ s'. HasFolder s' (tmp_of gc) × (link_at h s' (tmp_of gc) ≡ none)} _ _
            s₁
            (record {
              at = (folder-remove s₁ (tmp_of gc) has, reliable.link-remove_self s₁ (tmp_of gc));
            })
            λ _ s₂ (there, free).
              Ends-bind {P = λ _ s'. link_at h s' (tmp_of gc) ≡ some target} _ _ s₂
                (Ends-in_context _ _ s₂ (
                  Ends-cases (h.symlink target (tmp_of gc) s₂)
                    (λ a done. plain.link-symlink_self s₂ target (tmp_of gc) done)
                    (λ e bad.
                      not_both _ (reliable.symlink_ok s₂ target (tmp_of gc) there free) bad)))
                λ _ s₃ linked. Ends-in_context _ _ s₃ (
                  Ends-cases (h.rename (tmp_of gc) gc s₃) (λ a done. tt)
                    (λ e bad. not_both _ (reliable.rename_ok s₃ (tmp_of gc) gc target linked) bad))

  pub write_gcroot-Sure : (gc target : String) → Sure (write_gcroot h gc target)
  write_gcroot-Sure gc target = record {
    at = λ s. let (a, e, u) = Returns-value (write_gcroot-Returns gc target s) in (a, e);
  }

  module _ (ref : EnvRef) (activating : IsActivating h p ref) where
    found :
        (s s' : h.State) (names : List String) (e f : Error)
        → IsActivated h p ref s s'
        → h.read_dir s' (run_dir (env_dir p ref)) ≡ ok names
        → or_error e (pick (read_run h p (env_dir p ref) "dev" s') "dev" names "") ≡ err f
        → ⊥
    found s s' names e f after listed bad =
        let same : names ≡ after.names = cc (listed, after.listed) in
        NoneLeads-or_error (read_run h p (env_dir p ref) "dev" s') "dev" e f names bad after.name
          after.target (rw same after.leads)

    pub build_env-Returns :
        (s : h.State)
        → Returns (λ _ s'. IsActivated h p ref s s') (build_env h p (env_dir p ref) "dev" s)
    unfolding build_env run_flox
    build_env-Returns s =
        Ends-bind {P = λ _ s'. IsActivated h p ref s s'} _ _ s
          (Ends-in_context _ _ s (
            Returns-Sure _ s (run_flox-Sure (activate_command p (env_dir p ref) "dev"))
              (λ a e. activating.run-IsActivated s _)))
          λ _ s₁ after.
            Ends-bind
              {P = λ names s'.
                IsActivated h p ref s s' × (h.read_dir s' (run_dir (env_dir p ref)) ≡ ok names)}
              _ _ s₁
              (Ends-in_context _ _ s₁ (
                Ends-cases (reads (λ s'. h.read_dir s' (run_dir (env_dir p ref))) s₁)
                  (λ names done. (after, done)) (λ e bad. not_both _ after.listed bad)))
              λ names s₂ (after, listed).
                Ends-cases _ (λ target done. after) (λ f bad. found s s₂ names _ f after listed bad)

read_ok : (r : Result String) (text : String) → to_option r ≡ some text → r ≡ ok text
read_ok (ok t) text e = cc
read_ok (err f) text e = cc

module _ (h : Host) (plain : IsPlain h) (reliable : IsReliable h) where
  open reliable use {HasFolder, folder-mkdir_all, folder-write_file}

  -- The file is copied, and directories that are there stay.
  stage_file-Returns :
      (folder staging_env f text q : String) (s : h.State)
      → content_at h s (file_in folder f) ≡ some text
      → HasFolder s (file_in staging_env f)
      → HasFolder s q
      → Returns
          (λ _ s'. Copied h plain folder staging_env f s s' × HasFolder s' q)
          (stage_file h folder staging_env f s)
  unfolding stage_file ◌>>=◌ in_context
  stage_file-Returns folder staging_env f text q s held has other =
      let read : h.read_file s (file_in folder f) ≡ ok text =
        read_ok (h.read_file s (file_in folder f)) text held in
      let good = reliable.write_file_ok s (file_in staging_env f) text has in
      let kept = folder-write_file s (file_in staging_env f) text q other in
      let done : (stage_file h folder staging_env f s).0 ≡ ok tt =
        rw (stage_file, read) (rw good refl) in
      let still : HasFolder (stage_file h folder staging_env f s).1 q =
        rw (stage_file, read) kept in
      Ends-cases (stage_file h folder staging_env f s)
        (λ a e. (Ends-value a (stage_file-Ends h plain folder staging_env f s) e, still))
        (λ e bad. not_both _ done bad)

  module _ (folder staging : String) (named : folder ≢ "") (staged : staging ≢ "") where
    pub stage-Returns :
        (toml lock : String) (s : h.State)
        → content_at h s (toml_path folder) ≡ some toml
        → content_at h s (lock_path folder) ≡ some lock
        → Returns (λ _ _. Unit {0}) (stage h folder staging s)
    unfolding stage
    stage-Returns toml lock s has_toml has_lock =
        let staging_env = file_in staging "env" in
        let apart : lock_path folder ≢ toml_path staging_env =
          ne_by_last _ _ b'k' b'l' (lock_last folder named)
            (toml_last staging_env (env-ne-empty staging staged)) (omega arith) in
        Ends-bind
          {P = λ _ s'.
            ((q : String) → content_at h s' q ≡ content_at h s q)
            × HasFolder s' (toml_path staging_env)
            × HasFolder s' (lock_path staging_env)}
          _ _ s
          (Ends-in_context _ _ s (
            Returns-Sure _ s (reliable.mkdir_all-Sure staging_env) (λ a done. (
              λ q. plain.content-mkdir_all s staging_env q,
              folder-mkdir_all s staging_env "manifest.toml" toml-IsName,
              folder-mkdir_all s staging_env "manifest.lock" lock-IsName,
            ))))
          λ _ s₁ (same, toml_in, lock_in).
            Ends-bind _ _ s₁
              (stage_file-Returns folder staging_env "manifest.toml" toml (lock_path staging_env) s₁
                (same (toml_path folder) ∙ has_toml) toml_in lock_in)
              λ _ s₂ (copied, still).
                Ends-mono
                  (stage_file-Returns folder staging_env "manifest.lock" lock
                    (lock_path staging_env) s₂
                    (copied.1 (lock_path folder) apart ∙ same (lock_path folder) ∙ has_lock) still
                    still)
                  (λ _ s₃ c. tt) (λ s' e. e)
