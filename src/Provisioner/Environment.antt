-- ===== src/Provisioner/Environment.antt =====
-- internal/provisioner/exec.go: the environment of the flox and nix commands, with the GitHub token.
use flox_controller.Prelude.{
  String, ◌<>◌, List, [], ◌∷◌, ◌++◌, ◌==◌, string_eq, if◌then◌else◌, has_prefix, trim_space, ok,
  err,
}
use flox_controller.Floxenv.{environ}
use flox_controller.Host.{Host, getenv}

abbrev pub token_line : String
token_line = "access-tokens = github.com="

-- The loop that drops the entries of NIX_CONFIG.
unfoldable pub without_nix_config : List String → List String
without_nix_config [] = []
without_nix_config (e ∷ env) =
    if has_prefix e "NIX_CONFIG=" then without_nix_config env else e ∷ without_nix_config env

module _ (h : Host) where
  unfoldable pub read_github_token : h.State → String
  read_github_token s =
      let path = getenv h s "GITHUB_ACCESS_TOKEN_FILE" in
      if path == ""
      then ""
      else elim (h.read_file s path) [ err e ↦ "" | ok text ↦ trim_space text ]

  -- The entry of NIX_CONFIG with the token's line behind what it has.
  unfoldable pub config_entry : h.State → String → String
  config_entry s token =
      let nix_config = getenv h s "NIX_CONFIG" in
      let config = if nix_config == "" then "" else nix_config <> "\n" in
      "NIX_CONFIG=" <> (config <> (token_line <> token))

  unfoldable pub flox_command_env : h.State → List String
  unfolding read_github_token without_nix_config config_entry
  flox_command_env s =
      let env = h.environ s ++ environ in
      let token = read_github_token s in
      if token == "" then env else without_nix_config env ++ (config_entry s token ∷ [])
