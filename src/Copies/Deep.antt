-- ===== src/Copies/Deep.antt =====
-- The copies of the resources are deep.
use flox_controller.Prelude.{refl}
use flox_controller.Copies.Slices.{plain}
use flox_controller.Copies.Layouts.{flat, IsDeepCopy, IsDeepCopy-flat}
use flox_controller.Copies.References.{
  copy_slice-IsDeepCopy, copy_pointer-IsDeepCopy, copy_map-IsDeepCopy,
}
use flox_controller.Copies.Structs.{copy_both-IsDeepCopy, struct-IsDeepCopy}
use flox_controller.Copies.Objects.{
  tables, strings, flags, policies, secrets, injected, raws, realizations, conditions, phases, envs,
  catalogs,
}
use flox_controller.Copies.DeepCopy.{
  Library, copy_secret, copy_injected, copy_spec, copy_status, copy_env, copy_env_list,
  copy_catalog_status, copy_catalog, copy_catalog_list,
}
use flox_controller.Copies.Resources.{
  secret_layout, injected_layout, status_layout, catalog_status_layout, catalog_layout, secret_of,
  injected_of, spec_of, status_of, env_of, catalog_status_of, catalog_of, raw_layout, spec_layout,
  env_layout, env_list_layout, catalog_list_layout, IsLibrary,
}

copy_secret-IsDeepCopy : IsDeepCopy secret_layout copy_secret
unfolding copy_secret
copy_secret-IsDeepCopy =
    struct-IsDeepCopy _ (λ x. x.optional) secret_of _ (λ x y. record x { optional = y })
      (λ x y. refl) (λ x y v. refl) (copy_pointer-IsDeepCopy flags flat plain IsDeepCopy-flat)

copy_injected-IsDeepCopy : IsDeepCopy injected_layout copy_injected
unfolding copy_injected
copy_injected-IsDeepCopy =
    struct-IsDeepCopy _ (λ x. x.secret_key_ref) injected_of _
      (λ x y. record x { secret_key_ref = y }) (λ x y. refl) (λ x y v. refl)
      (copy_pointer-IsDeepCopy secrets secret_layout copy_secret copy_secret-IsDeepCopy)

module _ (lib : Library) (lawful : IsLibrary lib) where
  copy_spec-IsDeepCopy : IsDeepCopy (spec_layout lib) (copy_spec lib)
  unfolding copy_spec
  copy_spec-IsDeepCopy =
      struct-IsDeepCopy _ (λ x. (x.manifest, (x.update, (x.depends_on, x.inject)))) spec_of _
        (λ x y. record x { manifest = y.0; update = y.1.0; depends_on = y.1.1.0; inject = y.1.1.1 })
        (λ x y. refl) (λ x y v. refl)
        (copy_both-IsDeepCopy _ _ _ _
          (copy_pointer-IsDeepCopy raws (raw_layout lib) lib.copy_raw lawful.copy_raw-IsDeepCopy)
          (copy_both-IsDeepCopy _ _ _ _
            (copy_pointer-IsDeepCopy policies flat plain IsDeepCopy-flat)
            (copy_both-IsDeepCopy _ _ _ _ (copy_slice-IsDeepCopy strings flat plain IsDeepCopy-flat)
              (copy_slice-IsDeepCopy injected injected_layout copy_injected
                copy_injected-IsDeepCopy))))

  pub copy_status-IsDeepCopy : IsDeepCopy status_layout (copy_status lib)
  unfolding copy_status
  copy_status-IsDeepCopy =
      struct-IsDeepCopy _ (λ x. (x.resolved, (x.realized, x.conditions))) status_of _
        (λ x y. record x { resolved = y.0; realized = y.1.0; conditions = y.1.1 }) (λ x y. refl)
        (λ x y v. refl)
        (copy_both-IsDeepCopy _ _ _ _ (copy_map-IsDeepCopy tables) (
          copy_both-IsDeepCopy _ _ _ _
            (copy_slice-IsDeepCopy realizations flat plain IsDeepCopy-flat)
            (copy_slice-IsDeepCopy conditions flat lib.copy_condition
              lawful.copy_condition-IsDeepCopy)))

  pub copy_env-IsDeepCopy : IsDeepCopy (env_layout lib) (copy_env lib)
  unfolding copy_env
  copy_env-IsDeepCopy =
      struct-IsDeepCopy _ (λ x. (x.meta, (x.spec, x.status))) env_of _
        (λ x y. record { meta = y.0; spec = y.1.0; status = y.1.1 }) (λ x y. refl) (λ x y v. refl)
        (copy_both-IsDeepCopy _ _ _ _ lawful.copy_meta-IsDeepCopy
          (copy_both-IsDeepCopy _ _ _ _ copy_spec-IsDeepCopy copy_status-IsDeepCopy))

  pub copy_env_list-IsDeepCopy : IsDeepCopy (env_list_layout lib) (copy_env_list lib)
  unfolding copy_env_list
  copy_env_list-IsDeepCopy =
      struct-IsDeepCopy _ (λ x. x.items) (λ x v. v) _ (λ x y. record x { items = y }) (λ x y. refl)
        (λ x y v. refl)
        (copy_slice-IsDeepCopy envs (env_layout lib) (copy_env lib) copy_env-IsDeepCopy)

  copy_catalog_status-IsDeepCopy : IsDeepCopy catalog_status_layout (copy_catalog_status lib)
  unfolding copy_catalog_status
  copy_catalog_status-IsDeepCopy =
      struct-IsDeepCopy _ (λ x. (x.envs, x.conditions)) catalog_status_of _
        (λ x y. record x { envs = y.0; conditions = y.1 }) (λ x y. refl) (λ x y v. refl)
        (copy_both-IsDeepCopy _ _ _ _ (copy_slice-IsDeepCopy phases flat plain IsDeepCopy-flat) (
          copy_slice-IsDeepCopy conditions flat lib.copy_condition
            lawful.copy_condition-IsDeepCopy))

  pub copy_catalog-IsDeepCopy : IsDeepCopy catalog_layout (copy_catalog lib)
  unfolding copy_catalog
  copy_catalog-IsDeepCopy =
      struct-IsDeepCopy _ (λ x. (x.meta, x.status)) catalog_of _
        (λ x y. record x { meta = y.0; status = y.1 }) (λ x y. refl) (λ x y v. refl)
        (copy_both-IsDeepCopy _ _ _ _ lawful.copy_meta-IsDeepCopy copy_catalog_status-IsDeepCopy)

  pub copy_catalog_list-IsDeepCopy : IsDeepCopy catalog_list_layout (copy_catalog_list lib)
  unfolding copy_catalog_list
  copy_catalog_list-IsDeepCopy =
      struct-IsDeepCopy _ (λ x. x.items) (λ x v. v) _ (λ x y. record x { items = y }) (λ x y. refl)
        (λ x y v. refl)
        (copy_slice-IsDeepCopy catalogs catalog_layout (copy_catalog lib) copy_catalog-IsDeepCopy)
