-- ===== src/Tests/Sources.antt =====
-- The theorems on the sources, the staging and the build of an environment, on a node in memory.
use flox_controller.Prelude.{
  String, ◌<>◌, some, List, [], ◌∷◌, ◌++◌, ◌==◌, string_eq, if◌then◌else◌, ok, ◌≡◌, ◌≢◌, refl,
  has_prefix, sym, ◌∙◌,
}
use flox_controller.Action.{Ends}
use flox_controller.Filepath.{join_path}
use flox_controller.Floxenv.{environ}
use flox_controller.Host.{content_at, getenv}
use flox_controller.Provisioner.{env_dir}
use flox_controller.Provisioner.Build.{build_env}
use flox_controller.Provisioner.Subtree.{staging_of}
use flox_controller.Provisioner.Realize.{write_sources, flox_env_dir}
use flox_controller.Provisioner.Environment.{flox_command_env, read_github_token}
use flox_controller.Provisioner.Sources.{toml_path, lock_path, write_sources-Ends}
use flox_controller.Provisioner.Selection.{Chosen, run_dir, read_run, NotBuilt, build_env-Ends}
use flox_controller.Provisioner.Token.{config_entries, other_entries, flox_command_env_lem}
use flox_controller.Tests.Node.{Node, node, node-IsPlain}
use flox_controller.Tests.Provisioning.{p, web, fresh, request, web_staging}

web_dir : env_dir p web ≡ "/envs/tools/web"
unfolding env_dir join_path string_eq has_prefix flox_controller.Prelude.join
    flox_controller.Prelude.nat_eq
web_dir = refl

pub web_dir-ne-empty : env_dir p web ≢ ""
web_dir-ne-empty e = cc (sym web_dir ∙ e)

write_sources-Ends_example :
    Ends
      (λ _ s'.
        (content_at node s' (toml_path (flox_env_dir p web)) ≡ some "v = 1")
        × (content_at node s' (lock_path (flox_env_dir p web)) ≡ (
            if request.lock == ""
            then content_at node fresh (lock_path (flox_env_dir p web))
            else some request.lock)))
      (λ _. Unit {0})
      (write_sources node p request fresh)
write_sources-Ends_example = write_sources-Ends node node-IsPlain p request fresh web_dir-ne-empty

-- The source directory of a name that no staged directory holds.
abbrev sources : String
sources = "/envs/tools/web/.flox/env"

pub staging-ne-empty : staging_of p web ≢ ""
staging-ne-empty e = cc (sym web_staging ∙ e)

build_env-Ends_example :
    Ends
      (λ target s'.
        (names : List String) × (node.read_dir s' (run_dir "/envs/tools/web") ≡ ok names)
        × Chosen (read_run node p "/envs/tools/web" "dev" s') "dev" names target)
      (NotBuilt node p "/envs/tools/web" "dev" fresh)
      (build_env node p "/envs/tools/web" "dev" fresh)
build_env-Ends_example = build_env-Ends node p "/envs/tools/web" "dev" fresh

flox_command_env_lem_example :
    (config_entries (flox_command_env node fresh) ≡ (
      if read_github_token node fresh == ""
      then config_entries (node.environ fresh ++ environ)
      else if getenv node fresh "NIX_CONFIG" == ""
      then ("NIX_CONFIG=" <> ("access-tokens = github.com=" <> read_github_token node fresh)) ∷ []
      else ("NIX_CONFIG="
          <> (getenv node fresh "NIX_CONFIG"
              <> ("\n" <> ("access-tokens = github.com=" <> read_github_token node fresh))))
        ∷ []))
    × (other_entries (flox_command_env node fresh) ≡ other_entries (node.environ fresh ++ environ))
flox_command_env_lem_example = flox_command_env_lem node fresh
