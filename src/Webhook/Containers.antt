-- ===== src/Webhook/Containers.antt =====
-- The changes of one container: its environment variables and its mount of the nix store.
use flox_controller.Prelude.{
  String, Bool, true, false, none, some, List, [], ◌∷◌, ◌==◌, string_eq, if◌then◌else◌, split_last,
}
use mathlib.Core.Option
use flox_controller.Prelude.Dict.{Dict, lookup}
use flox_controller.Api.{InjectedEnv}
use flox_controller.Core.{Container, EnvVar, VolumeMount}
use flox_controller.Floxenv.{Setting, settings, nix_config}

abbrev pub nix_build_store_mount : String
nix_build_store_mount = "/var/lib/flox-nri/nix-build-store"

-- The environment's name in an annotation's value: what stands behind the last slash.
unfoldable pub env_name : String → String
unfolding split_last
env_name value = elim (split_last b'/' value) [ some (folder, name) ↦ name | none ↦ value ]

unfoldable pub injected_env_var : InjectedEnv → EnvVar
injected_env_var inj = elim inj.secret_key_ref [
  | some ref ↦ record {
    name = inj.name;
    value = "";
    secret_key_ref = some (record { name = ref.name; key = ref.key; optional = ref.optional });
  }
  | none ↦ record { name = inj.name; value = inj.value; secret_key_ref = none }
]

-- The variables with `v` at the end, unless one of its name is there.
unfoldable pub upsert_var : List EnvVar → EnvVar → List EnvVar
upsert_var [] v = v ∷ []
upsert_var (old ∷ env) v = if old.name == v.name then old ∷ env else old ∷ upsert_var env v

unfoldable pub upsert_env : Container → EnvVar → Container
unfolding upsert_var
upsert_env c v = record c { env = upsert_var c.env v }

unfoldable pub setting_var : Setting → EnvVar
setting_var s = record { name = s.name; value = s.value; secret_key_ref = none }

unfoldable pub upsert_settings : List Setting → Container → Container
unfolding upsert_env setting_var
upsert_settings [] c = c
upsert_settings (s ∷ rest) c = upsert_settings rest (upsert_env c (setting_var s))

unfoldable pub upsert_injected : List InjectedEnv → Container → Container
unfolding upsert_env injected_env_var
upsert_injected [] c = c
upsert_injected (inj ∷ injects) c = upsert_injected injects (upsert_env c (injected_env_var inj))

unfoldable pub inject_flox_env_into :
    Dict String String → Dict String (List InjectedEnv) → Container → Container
unfolding upsert_settings upsert_injected lookup
inject_flox_env_into envs injects c = elim (lookup c.name envs) [
  | none ↦ c
  | some name ↦
      upsert_injected (Option.get_or (lookup name injects) []) (upsert_settings settings c)
]

unfoldable pub has_mount : List VolumeMount → String → Bool
has_mount [] name = false
has_mount (m ∷ mounts) name = if m.name == name then true else has_mount mounts name

unfoldable pub append_mount : List VolumeMount → VolumeMount → List VolumeMount
append_mount [] v = v ∷ []
append_mount (m ∷ mounts) v = m ∷ append_mount mounts v

unfoldable pub mount_nix_store : Container → String → Container
unfolding has_mount append_mount upsert_env nix_config
mount_nix_store c volume_name =
    let mounted = if has_mount c.volume_mounts volume_name then c else record c {
      volume_mounts =
          append_mount c.volume_mounts
            (record { name = volume_name; mount_path = nix_build_store_mount });
    } in
    upsert_env mounted (record { name = "NIX_CONFIG"; value = nix_config; secret_key_ref = none })
