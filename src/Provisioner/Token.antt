-- ===== src/Provisioner/Token.antt =====
-- The variables that the commands get, with the GitHub token and without.
use package.text.Mathlib.TextLemmas.{nil-append, append_assoc}
use flox_controller.Prelude.{
  String, ◌<>◌, Bool, true, List, [], ◌∷◌, ◌++◌, ◌==◌, string_eq, if◌then◌else◌, has_prefix,
  strip_prefix-append, ◌≡◌, refl, ap, arith, Bool-cases, inl, inr,
}
use flox_controller.Floxenv.{environ}
use flox_controller.Host.{Host, getenv}
use flox_controller.Provisioner.Environment.{
  token_line, without_nix_config, read_github_token, config_entry, flox_command_env,
}

abbrev pub sets_config : String → Bool
sets_config e = has_prefix e "NIX_CONFIG="

-- The entries that set NIX_CONFIG, in their order.
abbrev pub config_entries : List String → List String
config_entries [] = []
config_entries (e ∷ env) = if sets_config e then e ∷ config_entries env else config_entries env

-- The other entries, in their order.
abbrev pub other_entries : List String → List String
other_entries [] = []
other_entries (e ∷ env) = if sets_config e then other_entries env else e ∷ other_entries env

config_entries-append :
    (env : List String) (e : String)
    → sets_config e ≡ true
    → config_entries (without_nix_config env ++ (e ∷ [])) ≡ e ∷ []
unfolding without_nix_config
config_entries-append [] e h = ground arith
config_entries-append (x ∷ env) e h = ground (arith, config_entries-append env e h)

other_entries-append :
    (env : List String) (e : String)
    → sets_config e ≡ true
    → other_entries (without_nix_config env ++ (e ∷ [])) ≡ other_entries env
unfolding without_nix_config
other_entries-append [] e h = ground arith
other_entries-append (x ∷ env) e h = ground (arith, other_entries-append env e h)

module _ (h : Host) where
  config_entry-sets_config :
      (s : h.State) (token : String) → sets_config (config_entry h s token) ≡ true
  unfolding config_entry has_prefix
  config_entry-sets_config s token = rw strip_prefix-append refl

  config_entry_lem :
      (s : h.State) (token : String)
      → config_entry h s token ≡ (
          if getenv h s "NIX_CONFIG" == ""
          then "NIX_CONFIG=" <> ("access-tokens = github.com=" <> token)
          else "NIX_CONFIG="
            <> (getenv h s "NIX_CONFIG" <> ("\n" <> ("access-tokens = github.com=" <> token))))
  unfolding config_entry
  config_entry_lem s token = elim (Bool-cases (getenv h s "NIX_CONFIG" == "")) [
    | inl unset ↦
        rw (unset, config_entry)
          (ap (λ (t : String). "NIX_CONFIG=" <> t) (nil-append (token_line <> token)))
    | inr set ↦
        rw (set, config_entry)
          (ap (λ (t : String). "NIX_CONFIG=" <> t)
            (append_assoc (getenv h s "NIX_CONFIG") "\n" (token_line <> token)))
  ]

  -- With a token, the commands get one NIX_CONFIG, which has the token's line, behind the settings of
  -- the process and a line feed where the process has settings; without one, they get those of the
  -- process and of flox. They get every other variable of the process and of flox, in that order.
  pub flox_command_env_lem :
      (s : h.State)
      → let token = read_github_token h s in
        let env = h.environ s ++ environ in
        let config = getenv h s "NIX_CONFIG" in
        (config_entries (flox_command_env h s) ≡ (
          if token == ""
          then config_entries env
          else if config == ""
          then ("NIX_CONFIG=" <> ("access-tokens = github.com=" <> token)) ∷ []
          else ("NIX_CONFIG=" <> (config <> ("\n" <> ("access-tokens = github.com=" <> token))))
            ∷ []))
        × (other_entries (flox_command_env h s) ≡ other_entries env)
  unfolding flox_command_env
  flox_command_env_lem s =
      let token = read_github_token h s in
      let env = h.environ s ++ environ in
      let sets = config_entry-sets_config s token in
      (
        ground (
          arith,
          config_entries-append env (config_entry h s token) sets,
          config_entry_lem s token,
        ),
        ground (arith, other_entries-append env (config_entry h s token) sets),
      )
