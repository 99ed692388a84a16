-- ===== src/Provisioner/Sources.antt =====
-- The source directory of an environment: what flox finds there, and what goes into the store.
use flox_controller.Prelude.{
  String, ◌==◌, string_eq, nat_eq, not, if◌then◌else◌, some, ◌≡◌, ◌≢◌, refl, ◌∙◌, sym, arith,
  Bool-cases, inl, inr,
}
use flox_controller.Action.{
  when, in_context, Ends, Ends-bind, Ends-cases, Ends-in_context, Ends-mono,
}
use flox_controller.Host.{Host, content_at}
use flox_controller.Host.Laws.{IsPlain}
use flox_controller.Filepath.{elements}
use flox_controller.Filepath.Files.{last_code, last_code-join_path, ne_by_last}
use flox_controller.EnvController.Types.{RealizeRequest}
use flox_controller.Provisioner.{ExecProvisioner, env_dir}
use flox_controller.Provisioner.Subtree.{file_in}
use flox_controller.Provisioner.Realize.{write_sources, flox_env_dir}

abbrev pub toml_path : String → String
toml_path folder = file_in folder "manifest.toml"

abbrev pub lock_path : String → String
lock_path folder = file_in folder "manifest.lock"

module _ (folder : String) (h : folder ≢ "") where
  pub toml_last : last_code (toml_path folder) ≡ b'l'
  unfolding elements string_eq nat_eq last_code
  toml_last = last_code-join_path folder "m" "anifest.toml" h refl

  pub lock_last : last_code (lock_path folder) ≡ b'k'
  unfolding elements string_eq nat_eq last_code
  lock_last = last_code-join_path folder "m" "anifest.lock" h refl

  json_last : last_code (file_in folder "env.json") ≡ b'n'
  unfolding elements string_eq nat_eq last_code
  json_last = last_code-join_path folder "e" "nv.json" h refl

  pub env-ne-empty : file_in folder "env" ≢ ""
  unfolding elements string_eq nat_eq last_code
  env-ne-empty =
      ne_by_last _ _ b'v' 0 (last_code-join_path folder "e" "nv" h refl) refl (omega arith)

  flox-ne-empty : file_in folder ".flox" ≢ ""
  unfolding elements string_eq nat_eq last_code
  flox-ne-empty =
      ne_by_last _ _ b'x' 0 (last_code-join_path folder "." "flox" h refl) refl (omega arith)

module _ (h : Host) (plain : IsPlain h) (p : ExecProvisioner) (req : RealizeRequest) where
  abbrev toml : String
  toml = toml_path (flox_env_dir p req.ref)

  abbrev lock : String
  lock = lock_path (flox_env_dir p req.ref)

  write :
      (path text : String) (s : h.State)
      → Ends
          (λ _ s'.
            (content_at h s' path ≡ some text)
            × ((q : String) → q ≢ path → content_at h s' q ≡ content_at h s q))
          (λ _. Unit {0})
          (h.write_file path text s)
  write path text s =
      Ends-cases (h.write_file path text s)
        (λ a done. (
          plain.content-write_file_self s path text done,
          λ q ne. plain.content-write_file s path text q ne,
        ))
        (λ e failed. tt)

  mkdir :
      (path : String) (s : h.State)
      → Ends
          (λ _ s'. content_at h s' lock ≡ content_at h s lock)
          (λ _. Unit {0})
          (h.mkdir_all path s)
  mkdir path s =
      Ends-cases (h.mkdir_all path s) (λ a done. plain.content-mkdir_all s path lock)
        (λ e failed. tt)

  abbrev json : String
  json = file_in (file_in (env_dir p req.ref) ".flox") "env.json"

  module _ (named : env_dir p req.ref ≢ "") where
    flox_named : file_in (env_dir p req.ref) ".flox" ≢ ""
    flox_named = flox-ne-empty (env_dir p req.ref) named

    env_named : flox_env_dir p req.ref ≢ ""
    unfolding flox_env_dir
    env_named = env-ne-empty (file_in (env_dir p req.ref) ".flox") flox_named

    lock-ne-toml : lock ≢ toml
    lock-ne-toml =
        ne_by_last _ _ b'k' b'l' (lock_last _ env_named) (toml_last _ env_named) (omega arith)

    lock-ne-json : lock ≢ json
    lock-ne-json =
        ne_by_last _ _ b'k' b'n' (lock_last _ env_named) (json_last _ flox_named) (omega arith)

    toml-ne-json : toml ≢ json
    toml-ne-json =
        ne_by_last _ _ b'l' b'n' (toml_last _ env_named) (json_last _ flox_named) (omega arith)

    write_lock :
        (s s' : h.State)
        → content_at h s' toml ≡ some req.manifest_toml
        → content_at h s' lock ≡ content_at h s lock
        → Ends
            (λ _ s''.
              (content_at h s'' toml ≡ some req.manifest_toml)
              × (content_at h s'' lock
                  ≡ (if req.lock == "" then content_at h s lock else some req.lock)))
            (λ _. Unit {0})
            (when
              (not (req.lock == ""))
              (in_context "write manifest.lock" (h.write_file lock req.lock))
              s')
    write_lock s s' manifest kept = elim (Bool-cases (req.lock == "")) [
      | inl empty ↦ rw empty (record { at = (manifest, kept) })
      | inr given ↦ rw given (
          Ends-in_context _ _ s' (
            Ends-mono (write lock req.lock s')
              (λ a s'' w. (w.1 toml (λ e. lock-ne-toml (sym e)) ∙ manifest, w.0)) (λ s'' u. tt)))
    ]

  -- Where the sources are written, the manifest is the requested one, and the lock is the requested
  -- one; where the request has none, the lock is the one that was there before. The host is plain,
  -- and the directory of the environment has a name.
  pub write_sources-Ends :
      (s : h.State)
      → env_dir p req.ref ≢ ""
      → Ends
          (λ _ s'.
            (content_at h s' toml ≡ some req.manifest_toml)
            × (content_at h s' lock
                ≡ (if req.lock == "" then content_at h s lock else some req.lock)))
          (λ _. Unit {0})
          (write_sources h p req s)
  unfolding write_sources flox_env_dir
  write_sources-Ends s named = Ends-bind _ _ s (Ends-in_context _ _ s (mkdir _ s)) λ _ s₁ kept₁.
      Ends-bind _ _ s₁ (Ends-in_context _ _ s₁ (write toml req.manifest_toml s₁)) λ _ s₂ w₂.
        Ends-bind _ _ s₂ (Ends-in_context _ _ s₂ (write json _ s₂)) λ _ s₃ w₃.
          write_lock named s s₃ (w₃.1 toml (toml-ne-json named) ∙ w₂.0)
            (w₃.1 lock (lock-ne-json named) ∙ w₂.1 lock (lock-ne-toml named) ∙ kept₁)
