-- ===== src/Webhook/Repeated.antt =====
-- What a second admission does to the containers: nothing.
use flox_controller.Prelude.{
  String, true, none, some, List, [], ◌∷◌, string_eq, if◌then◌else◌, is_nil, eq_self, ◌≡◌, refl,
  sym, ap, ap₂, ◌∙◌, subst, arith, Bool-cases, Option-cases, inl, inr,
}
use mathlib.Core.Option
use flox_controller.Prelude.Dict.{Dict, lookup}
use flox_controller.Api.{InjectedEnv}
use flox_controller.Core.{Pod, Container, EnvVar, VolumeMount}
use flox_controller.Floxenv.{nix_config}
use flox_controller.Webhook.{map_containers, each_container, at_target}
use flox_controller.Webhook.Containers.{
  inject_flox_env_into, has_mount, append_mount, mount_nix_store, upsert_var, nix_build_store_mount,
}
use flox_controller.Webhook.Variables.{
  injected_vars, Present, upsert_var_present, is_some-upsert_var, is_some-upsert_all,
  Present-upsert_all, upsert_all-Present, inject_flox_env_into-eq, inject_flox_env_into-none,
}

abbrev nix_var : EnvVar
nix_var = record { name = "NIX_CONFIG"; value = nix_config; secret_key_ref = none }

abbrev mounts_with : List VolumeMount → String → List VolumeMount
mounts_with mounts n =
    if has_mount mounts n
    then mounts
    else append_mount mounts (record { name = n; mount_path = nix_build_store_mount })

mount_nix_store-eq :
    (c : Container) (claim : String)
    → mount_nix_store c claim ≡ record c {
      env = upsert_var c.env nix_var;
      volume_mounts = mounts_with c.volume_mounts claim;
    }
unfolding mount_nix_store
mount_nix_store-eq c claim = elim (Bool-cases (has_mount c.volume_mounts claim)) [
  | inl there ↦ rw (there, mount_nix_store) refl
  | inr absent ↦ rw (absent, mount_nix_store) refl
]

has_mount-append_mount :
    (mounts : List VolumeMount) (m : VolumeMount) → has_mount (append_mount mounts m) m.name ≡ true
unfolding has_mount append_mount
has_mount-append_mount [] m = ground (arith, eq_self m.name)
has_mount-append_mount (v ∷ mounts) m = ground (arith, has_mount-append_mount mounts m)

mounts_with_idem :
    (mounts : List VolumeMount) (n : String)
    → mounts_with (mounts_with mounts n) n ≡ mounts_with mounts n
mounts_with_idem mounts n = elim (Bool-cases (has_mount mounts n)) [
  | inl there ↦ rw there (rw there refl)
  | inr absent ↦ rw absent (
      rw (has_mount-append_mount mounts (record { name = n; mount_path = nix_build_store_mount }))
        refl)
]

upsert_var_idem :
    (env : List EnvVar) (v : EnvVar) → upsert_var (upsert_var env v) v ≡ upsert_var env v
upsert_var_idem env v = upsert_var_present (upsert_var env v) v (is_some-upsert_var env v)

-- The store's mount and setting stay one.
mount_nix_store_idem :
    (c : Container) (claim : String)
    → mount_nix_store (mount_nix_store c claim) claim ≡ mount_nix_store c claim
mount_nix_store_idem c claim =
    mount_nix_store-eq (mount_nix_store c claim) claim
    ∙ rw (mount_nix_store-eq c claim)
        (rw (upsert_var_idem c.env nix_var, mounts_with_idem c.volume_mounts claim) refl)

at_target-unasked :
    (targets : Dict String String) (c : Container)
    → lookup c.name targets ≡ none
    → at_target mount_nix_store targets c ≡ c
unfolding at_target
at_target-unasked targets c unasked = rw (unasked, at_target) refl

at_target-asked :
    (targets : Dict String String) (c : Container) (claim : String)
    → lookup c.name targets ≡ some claim
    → at_target mount_nix_store targets c ≡ mount_nix_store c claim
unfolding at_target
at_target-asked targets c claim asked = rw (asked, at_target) refl

mount_nix_store_name : (c : Container) (claim : String) → (mount_nix_store c claim).name ≡ c.name
mount_nix_store_name c claim = ap (λ (d : Container). d.name) (mount_nix_store-eq c claim)

pub at_target_idem :
    (targets : Dict String String) (c : Container)
    → at_target mount_nix_store targets (at_target mount_nix_store targets c)
      ≡ at_target mount_nix_store targets c
at_target_idem targets c = elim (Option-cases (lookup c.name targets)) [
  | inl unasked ↦ ap (at_target mount_nix_store targets) (at_target-unasked targets c unasked)
  | inr (claim, asked) ↦
      let e = at_target-asked targets c claim asked in
      ap (at_target mount_nix_store targets) e
      ∙ at_target-asked targets (mount_nix_store c claim) claim
          (ap (λ n. lookup n targets) (mount_nix_store_name c claim) ∙ asked)
      ∙ mount_nix_store_idem c claim
      ∙ sym e
]

Present-upsert_var :
    (env vs : List EnvVar) (v : EnvVar) → Present env vs → Present (upsert_var env v) vs
Present-upsert_var env [] v h = tt
Present-upsert_var env (w ∷ vs) v (here, there) =
    (is_some-upsert_all env (v ∷ []) w.name here, Present-upsert_var env vs v there)

-- The mount keeps a container's name and the variables that it has.
at_target_keeps :
    (targets : Dict String String) (c : Container) (vs : List EnvVar)
    → ((at_target mount_nix_store targets c).name ≡ c.name)
      × (Present c.env vs → Present (at_target mount_nix_store targets c).env vs)
at_target_keeps targets c vs = elim (Option-cases (lookup c.name targets)) [
  | inl unasked ↦ rw (at_target-unasked targets c unasked) (refl, λ h. h)
  | inr (claim, asked) ↦
      rw (at_target-asked targets c claim asked)
        (rw (mount_nix_store-eq c claim) (refl, Present-upsert_var c.env vs nix_var))
]

-- The injection finds its variables after the mount.
pub inject_flox_env_into-at_target :
    (envs : Dict String String) (injects : Dict String (List InjectedEnv))
    (targets : Dict String String) (c : Container)
    → let d = at_target mount_nix_store targets (inject_flox_env_into envs injects c) in
      inject_flox_env_into envs injects d ≡ d
inject_flox_env_into-at_target envs injects targets c =
    let mid = inject_flox_env_into envs injects c in
    let d = at_target mount_nix_store targets mid in
    elim (Option-cases (lookup c.name envs)) [
      | inl unnamed ↦
          let same : mid ≡ c = inject_flox_env_into-none envs injects c unnamed in
          let name = (at_target_keeps targets mid []).0 ∙ ap (λ (c : Container). c.name) same in
          inject_flox_env_into-none envs injects d (ap (λ n. lookup n envs) name ∙ unnamed)
      | inr (name, named) ↦
          let vs = injected_vars (Option.get_or (lookup name injects) []) in
          let same = inject_flox_env_into-eq envs injects c name named in
          let (kept, present) = at_target_keeps targets mid vs in
          let named' = kept ∙ ap (λ (c : Container). c.name) same in
          let there : Present mid.env vs =
            subst (λ (c : Container). Present c.env vs) (sym same) (Present-upsert_all c.env vs) in
          inject_flox_env_into-eq envs injects d name (ap (λ n. lookup n envs) named' ∙ named)
          ∙ ap (λ (e : List EnvVar). record d { env = e })
              (upsert_all-Present d.env vs (present there))
    ]

pub map_containers_fixed :
    (f g h : Container → Container) (cs : List Container)
    → ((c : Container) → h (f (g c)) ≡ f (g c))
    → map_containers h (map_containers f (map_containers g cs))
      ≡ map_containers f (map_containers g cs)
unfolding map_containers
map_containers_fixed f g h [] fixed = refl
map_containers_fixed f g h (c ∷ cs) fixed = ap₂ ◌∷◌ (fixed c) (map_containers_fixed f g h cs fixed)

pub each_container_fixed :
    (h : Container → Container) (pod : Pod)
    → map_containers h pod.spec.init_containers ≡ pod.spec.init_containers
    → map_containers h pod.spec.containers ≡ pod.spec.containers
    → each_container h pod ≡ pod
unfolding each_container
each_container_fixed h pod init main = rw (init, main) refl

pub at_target-none :
    (targets : Dict String String) (c : Container)
    → is_nil targets ≡ true
    → at_target mount_nix_store targets c ≡ c
unfolding at_target lookup
at_target-none [] c e = refl
at_target-none (t ∷ targets) c e = cc

pub map_containers_id :
    (f : Container → Container) (cs : List Container)
    → ((c : Container) → f c ≡ c)
    → map_containers f cs ≡ cs
unfolding map_containers
map_containers_id f [] same = refl
map_containers_id f (c ∷ cs) same = ap₂ ◌∷◌ (same c) (map_containers_id f cs same)
