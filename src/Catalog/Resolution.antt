-- ===== src/Catalog/Resolution.antt =====
-- Catalogs publish tarballs: what the manifests of environments rely on.
use package.text.Mathlib.TextLemmas.{append_assoc}
use flox_controller.Prelude.{
  String, ◌<>◌, List, [], ◌∷◌, ◌==◌, string_eq, ok, Error, ◌≡◌, ◌≢◌, refl, sym, subst, ◌∙◌, ◌⊎◌,
  inl, inr, Bool-cases, Result-cases,
}
use flox_controller.Api.{FloxEnv, FloxCatalog}
use flox_controller.Client.{Client, Artifact, NamespacedName}
use flox_controller.Manifest.Resolution.{IsTarball, CatalogsAreTarballs}
use flox_controller.Prelude.Dict.{get}
use flox_controller.EnvController.Status.{relock_annotation}
use flox_controller.Catalog.{
  CatalogReconciler, relocked, relock_all, propagate_relock, not_ready, flake_ref_of,
  resolved_catalog, publish, with_artifact, node_reachable_url, resolve, reconcile,
  source_namespace,
}

-- What a status patch of a catalog can change: the catalog that is read afterwards is one of before,
-- or has the reference that was sent. And a patch of an environment changes no catalog.
pub record IsMerging (c : Client) : Type 0 where
  pub get-patch :
      (s : c.State) (base sent : FloxCatalog) (ns name : String) (g : FloxCatalog)
      → c.get_catalog (c.patch_catalog_status s base sent).1 ns name ≡ ok g
      → (c.get_catalog s ns name ≡ ok g) ⊎ (g.status.flake_ref ≡ sent.status.flake_ref)
  pub get-patch_env :
      (s : c.State) (base sent : FloxEnv) (ns name : String)
      → c.get_catalog (c.patch_env s base sent).1 ns name ≡ c.get_catalog s ns name

module _ (r : CatalogReconciler) (merging : IsMerging r.client) where
  open r use {client, conditions}

  -- The reference is empty or a tarball.
  abbrev IsPublished : String → Type 0
  IsPublished flake = flake ≢ "" → IsTarball flake

  patch-CatalogsAreTarballs :
      (s : client.State) (base sent : FloxCatalog)
      → CatalogsAreTarballs client s
      → IsPublished sent.status.flake_ref
      → CatalogsAreTarballs client (client.patch_catalog_status s base sent).1
  patch-CatalogsAreTarballs s base sent t p ns name g found given =
      elim (merging.get-patch s base sent ns name g found) [
        | inl old ↦ t ns name g old given
        | inr same ↦ subst IsTarball (sym same) (p (λ empty. given (same ∙ empty)))
      ]

  relock_all-CatalogsAreTarballs :
      (s : client.State) (envs : List FloxEnv) (revision : String)
      → CatalogsAreTarballs client s
      → CatalogsAreTarballs client (relock_all r s envs revision).1
  unfolding relock_all
  relock_all-CatalogsAreTarballs s [] revision t = t
  relock_all-CatalogsAreTarballs s (env ∷ envs) revision t =
      let sent = relocked revision env in
      let moved : CatalogsAreTarballs client (client.patch_env s env sent).1 =
        λ ns name g found given.
          t ns name g (sym (merging.get-patch_env s env sent ns name) ∙ found) given in
      elim (Bool-cases (get env.meta.annotations relock_annotation == revision)) [
        | inl told ↦ rw (told, relock_all) (relock_all-CatalogsAreTarballs s envs revision t)
        | inr untold ↦ elim (Result-cases (client.patch_env s env sent).0) [
          | inl (e, bad) ↦ rw (untold, bad, relock_all) moved
          | inr (stored, good) ↦
              rw (untold, good, relock_all)
                (relock_all-CatalogsAreTarballs (client.patch_env s env sent).1 envs revision moved)
        ]
      ]

  flake_ref_of-IsTarball :
      (flake : FloxCatalog) (url : String) → IsTarball (flake_ref_of r flake url)
  unfolding flake_ref_of
  flake_ref_of-IsTarball flake url = elim (Bool-cases (flake.spec.dir == "")) [
    | inl whole ↦ rw whole (url, refl)
    | inr part ↦ rw part (url <> ("?dir=" <> flake.spec.dir), append_assoc "tarball+" url _)
  ]

  propagate_relock-CatalogsAreTarballs :
      (s : client.State) (namespace revision : String)
      → CatalogsAreTarballs client s
      → CatalogsAreTarballs client (propagate_relock r s namespace revision).1
  unfolding propagate_relock
  propagate_relock-CatalogsAreTarballs s namespace revision t = elim (Bool-cases (revision == "")) [
    | inl unknown ↦ rw unknown t
    | inr known ↦ elim (Result-cases (client.list_envs_in s namespace)) [
      | inl (e, bad) ↦ rw (known, bad, propagate_relock) t
      | inr (envs, good) ↦
          rw (known, good, propagate_relock) (relock_all-CatalogsAreTarballs s envs revision t)
    ]
  ]

  not_ready-CatalogsAreTarballs :
      (s : client.State) (flake : FloxCatalog) (reason : String) (cause : Error)
      → CatalogsAreTarballs client s
      → IsPublished flake.status.flake_ref
      → CatalogsAreTarballs client (not_ready r s flake reason cause).state
  unfolding not_ready
  not_ready-CatalogsAreTarballs s flake reason cause t p = patch-CatalogsAreTarballs s flake _ t p

  resolved_catalog-flake_ref :
      (s : client.State) (flake : FloxCatalog) (artifact : Artifact) (url : String)
      → (resolved_catalog r s flake artifact url).status.flake_ref ≡ flake_ref_of r flake url
  unfolding resolved_catalog
  resolved_catalog-flake_ref s flake artifact url = refl

  publish-CatalogsAreTarballs :
      (s : client.State) (flake : FloxCatalog) (artifact : Artifact) (url : String)
      → CatalogsAreTarballs client s
      → CatalogsAreTarballs client (publish r s flake artifact url).state
  unfolding publish
  publish-CatalogsAreTarballs s flake artifact url t =
      let sent = resolved_catalog r s flake artifact url in
      let recorded : CatalogsAreTarballs client (client.patch_catalog_status s flake sent).1 =
        patch-CatalogsAreTarballs s flake sent t (λ given.
          subst IsTarball (sym (resolved_catalog-flake_ref s flake artifact url))
            (flake_ref_of-IsTarball flake url)) in
      elim (Result-cases (client.patch_catalog_status s flake sent).0) [
        | inl (e, bad) ↦ rw (bad, publish) recorded
        | inr (stored, good) ↦
            rw (good, publish)
              (propagate_relock-CatalogsAreTarballs (client.patch_catalog_status s flake sent).1
                stored.namespace artifact.revision recorded)
      ]

  with_artifact-CatalogsAreTarballs :
      (s : client.State) (flake : FloxCatalog) (artifact : Artifact)
      → CatalogsAreTarballs client s
      → IsPublished flake.status.flake_ref
      → CatalogsAreTarballs client (with_artifact r s flake artifact).state
  unfolding with_artifact
  with_artifact-CatalogsAreTarballs s flake artifact t p = elim (Bool-cases (artifact.url == "")) [
    | inl missing ↦ rw missing (not_ready-CatalogsAreTarballs s flake "ArtifactNotReady" _ t p)
    | inr given ↦ elim (Result-cases (node_reachable_url r s artifact.url)) [
      | inl (e, bad) ↦
          rw (given, bad, with_artifact)
            (not_ready-CatalogsAreTarballs s flake "ArtifactURLUnresolvable" e t p)
      | inr (url, good) ↦
          rw (given, good, with_artifact) (publish-CatalogsAreTarballs s flake artifact url t)
    ]
  ]

  resolve-CatalogsAreTarballs :
      (s : client.State) (flake : FloxCatalog)
      → CatalogsAreTarballs client s
      → IsPublished flake.status.flake_ref
      → CatalogsAreTarballs client (resolve r s flake).state
  unfolding resolve
  resolve-CatalogsAreTarballs s flake t p =
      elim (Result-cases
        (client.get_git_repository s (source_namespace flake) flake.spec.source_ref.name)) [
          | inl (e, bad) ↦
              rw (bad, resolve) (not_ready-CatalogsAreTarballs s flake "SourceNotFound" e t p)
          | inr (artifact, good) ↦
              rw (good, resolve) (with_artifact-CatalogsAreTarballs s flake artifact t p)
        ]

  reconcile-CatalogsAreTarballs :
      (s : client.State) (req : NamespacedName)
      → CatalogsAreTarballs client s
      → CatalogsAreTarballs client (reconcile r s req).state
  unfolding reconcile
  reconcile-CatalogsAreTarballs s req t =
      elim (Result-cases (client.get_catalog s req.namespace req.name)) [
        | inl (e, bad) ↦ rw (bad, reconcile) t
        | inr (flake, found) ↦
            rw (found, reconcile)
              (resolve-CatalogsAreTarballs s flake t (t req.namespace req.name flake found))
      ]

  -- If every catalog that has a reference has a tarball's before the reconcile of a catalog, so has
  -- every catalog that is read after it, as the resolution of manifests needs it. Patches are such
  -- as IsMerging says.
  pub reconcile-IsTarball :
      (s : client.State) (req : NamespacedName)
      → CatalogsAreTarballs client s
      → (ns name : String) (f : FloxCatalog)
      → client.get_catalog (reconcile r s req).state ns name ≡ ok f
      → f.status.flake_ref ≢ ""
      → IsTarball f.status.flake_ref
  reconcile-IsTarball s req t = reconcile-CatalogsAreTarballs s req t
