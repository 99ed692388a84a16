-- ===== src/Provisioner/Staging.antt =====
-- What is staged when an environment is added to the store.
use flox_controller.Prelude.{String, true, none, some, ok, ◌≡◌, ◌≢◌, refl, ◌∙◌, ap}
use flox_controller.Action.{reads, Ends, Ends-bind, Ends-cases, Ends-in_context}
use flox_controller.Host.{Host, content_at, to_option}
use flox_controller.Host.Laws.{IsPlain, beneath}
use flox_controller.Provisioner.{ExecProvisioner}
use flox_controller.Provisioner.Subtree.{file_in, add_to_store, stage_file}
use flox_controller.Provisioner.Sources.{toml_path, lock_path}

module _ (h : Host) (plain : IsPlain h) where
  -- The file is copied, and every other file is kept.
  abbrev pub Copied : String → String → String → h.State → h.State → Type 0
  Copied folder staging_env f s s' =
      ((text : String) × (content_at h s (file_in folder f) ≡ some text)
        × (content_at h s' (file_in staging_env f) ≡ some text))
      × ((q : String) → q ≢ file_in staging_env f → content_at h s' q ≡ content_at h s q)

  pub stage_file-Ends :
      (folder staging_env f : String) (s : h.State)
      → Ends
          (λ _ s'. Copied folder staging_env f s s')
          (λ _. Unit {0})
          (stage_file h folder staging_env f s)
  unfolding stage_file
  stage_file-Ends folder staging_env f s =
      Ends-bind {P = λ text s'. (s' ≡ s) × (content_at h s (file_in folder f) ≡ some text)} _ _ s
        (Ends-in_context _ _ s (
          Ends-cases (reads (λ s. h.read_file s (file_in folder f)) s)
            (λ text done. (refl, ap to_option done)) (λ e failed. tt)))
        λ text s₁ (same, found). Ends-in_context _ _ s₁ (
          Ends-cases (h.write_file (file_in staging_env f) text s₁)
            (λ a done. (
              (text, found, plain.content-write_file_self s₁ (file_in staging_env f) text done),
              λ q ne.
                  plain.content-write_file s₁ (file_in staging_env f) text q ne
                  ∙ ap (λ (s : h.State). content_at h s q) same,
            ))
            (λ e failed. tt))

  -- The manifest and the lock of a folder, in the staged directory too.
  abbrev pub Staged : String → String → h.State → h.State → Type 0
  Staged folder staging_env s s' =
      (toml : String) × (lock : String) × (content_at h s (toml_path folder) ≡ some toml)
      × (content_at h s (lock_path folder) ≡ some lock)
      × (content_at h s' (toml_path staging_env) ≡ some toml)
      × (content_at h s' (lock_path staging_env) ≡ some lock)

  -- Every file but the two is kept.
  abbrev KeptBut : String → h.State → h.State → Type 0
  KeptBut staging_env s s' =
      (q : String)
      → q ≢ toml_path staging_env
      → q ≢ lock_path staging_env
      → content_at h s' q ≡ content_at h s q

  -- No other file than the two is below the staged directory.
  abbrev pub NothingElse : String → h.State → Type 0
  NothingElse staging s' =
      (q : String)
      → beneath q staging ≡ true
      → q ≢ toml_path (file_in staging "env")
      → q ≢ lock_path (file_in staging "env")
      → content_at h s' q ≡ none

  module _ (folder staging : String) (named : folder ≢ "") (staged : staging ≢ "") where
    abbrev staging_env : String
    staging_env = file_in staging "env"

  module _ (p : ExecProvisioner) (folder staging : String) where
    abbrev AddedFrom : h.State → String → h.State → Type 0
    AddedFrom s path s' =
        (s₁ : h.State) × Staged folder (file_in staging "env") s s₁
        × KeptBut (file_in staging "env") s s₁
        × ((add_to_store h p staging s₁).0 ≡ ok path)
        × (s' ≡ (add_to_store h p staging s₁).1)
