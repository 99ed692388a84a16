-- ===== src/Manifest/Resolution.antt =====
-- What resolveFlakeInstalls leaves in the install table.
use package.text.Mathlib.TextLemmas.{cons-append, append_assoc}
use flox_controller.Prelude.{
  String, ◌<>◌, false, none, some, ◌==◌, string_eq, nat_eq, if◌then◌else◌, has_prefix, Result, ok,
  err, ◌≡◌, ◌≢◌, refl, subst, Error, arith, Bool-cases, Option-cases, Result-cases, ◌⊎◌, inl, inr,
}
use flox_controller.Api.{FloxCatalog}
use flox_controller.Client.{Client}
use flox_controller.Manifest.{
  Value, null, text, table, Fields, end, field, lookup_field, set_field, Resolved, waiting,
  resolved, FlakeResolution, no_artifact, concrete, FloxCatalogRef, output_of, resolve_ref,
  resolve_flake, parse_flox_catalog_ref, catalog_flake, set_flake, add_install, resolve_installs,
  flox_catalog_scheme,
}

pub lookup_field-set_field :
    (j k : String) (v : Value) (m : Fields)
    → lookup_field j (set_field k v m) ≡ (if j == k then some v else lookup_field j m)
unfolding lookup_field set_field
lookup_field-set_field j k v end = refl
lookup_field-set_field j k v (field i w m) = ground (arith, lookup_field-set_field j k v m)

-- The concrete references that catalogs publish.
abbrev pub IsTarball : String → Type 0
IsTarball flake = (rest : String) × (flake ≡ "tarball+" <> rest)

tarball-has_prefix :
    (flake : String) → IsTarball flake → has_prefix flake flox_catalog_scheme ≡ false
unfolding has_prefix nat_eq
tarball-has_prefix flake (rest, e) = rw (e, cons-append)

catalog_flake-set_flake :
    (flake raw : String) (v : Value)
    → has_prefix flake flox_catalog_scheme ≡ false
    → catalog_flake v ≡ some raw
    → catalog_flake (set_flake flake v) ≡ none
unfolding catalog_flake set_flake
catalog_flake-set_flake flake raw (table entry) h k =
    ground (arith, lookup_field-set_field "flake" "flake" (text flake) entry)
catalog_flake-set_flake flake raw null h k = cc
catalog_flake-set_flake flake raw _ h k = cc

-- No install of the table has a reference to a catalog any more.
abbrev pub HasNoReferences : Fields → Type 0
HasNoReferences end = Unit
HasNoReferences (field id v m) = (catalog_flake v ≡ none) × HasNoReferences m

pub add_install-eq_resolved :
    (id : String) (v : Value) (r : Result Resolved) (m' : Fields)
    → add_install id v r ≡ ok (resolved m')
    → (m : Fields) × (r ≡ ok (resolved m)) × (m' ≡ field id v m)
unfolding add_install
add_install-eq_resolved id v (ok (resolved m)) m' h = (m, refl, ground arith)
add_install-eq_resolved id v (ok waiting) m' h = cc
add_install-eq_resolved id v (err e) m' h = cc

pub FlakeResolution-cases :
    (r : Result FlakeResolution)
    → ((e : Error) × (r ≡ err e))
      ⊎ (r ≡ ok no_artifact)
      ⊎ ((flake : String) × (r ≡ ok (concrete flake)))
FlakeResolution-cases (err e) = inl (e, refl)
FlakeResolution-cases (ok no_artifact) = inr (inl refl)
FlakeResolution-cases (ok (concrete flake)) = inr (inr (flake, refl))

module _ (c : Client) where
  -- A catalog that has been resolved has a tarball reference.
  abbrev pub CatalogsAreTarballs : c.State → Type 0
  CatalogsAreTarballs s =
      (ns name : String) (f : FloxCatalog)
      → c.get_catalog s ns name ≡ ok f
      → f.status.flake_ref ≢ ""
      → IsTarball f.status.flake_ref

  output_of-IsTarball :
      (ref : FloxCatalogRef) (f : FloxCatalog) (flake : String)
      → (f.status.flake_ref ≢ "" → IsTarball f.status.flake_ref)
      → output_of ref f ≡ concrete flake
      → IsTarball flake
  unfolding output_of
  output_of-IsTarball ref f flake t h = elim (Bool-cases (f.status.flake_ref == "")) [
    | inl bare ↦ cc (rw bare at h)
    | inr given ↦
        let (rest, e) = t (λ p. ground arith) in
        elim (Bool-cases (ref.output == "")) [
          | inl whole ↦ (rest, ground (arith, h))
          | inr part ↦ (
            rest <> ("#" <> ref.output),
            ground (arith, h, e, append_assoc "tarball+" rest ("#" <> ref.output)),
          )
        ]
  ]

  module _ (s : c.State) (env_ns : String) (t : CatalogsAreTarballs s) where
    resolve_ref-IsTarball :
        (id flake : String) (ref : FloxCatalogRef)
        → resolve_ref c s env_ns id ref ≡ ok (concrete flake)
        → IsTarball flake
    unfolding resolve_ref
    resolve_ref-IsTarball id flake ref h =
        let ns : String = if ref.namespace == "" then env_ns else ref.namespace in
        elim (Result-cases (c.get_catalog s ns ref.name)) [
          | inl (e, bad) ↦ cc (rw (bad, resolve_ref) at h)
          | inr (f, found) ↦
              output_of-IsTarball ref f flake (t ns ref.name f found)
                (ground (arith, rw (found, resolve_ref) at h))
        ]

    resolve_flake-IsTarball :
        (id raw flake : String)
        → resolve_flake c s env_ns id raw ≡ ok (concrete flake)
        → IsTarball flake
    unfolding resolve_flake
    resolve_flake-IsTarball id raw flake h = elim (Result-cases (parse_flox_catalog_ref raw)) [
      | inl (e, bad) ↦ cc (rw (bad, resolve_flake) at h)
      | inr (ref, read) ↦ resolve_ref-IsTarball id flake ref (rw (read, resolve_flake) at h)
    ]

    -- Once the loop over the installs ends with a table, no reference to a catalog is left in it.
    -- Every resolved catalog has a tarball reference.
    pub resolve_installs-HasNoReferences :
        (m m' : Fields) → resolve_installs c s env_ns m ≡ ok (resolved m') → HasNoReferences m'
    unfolding resolve_installs
    resolve_installs-HasNoReferences end m' h =
        let e : end ≡ m' = ground arith in subst HasNoReferences e tt
    resolve_installs-HasNoReferences (field id v m) m' h = elim (Option-cases (catalog_flake v)) [
      | inl plain ↦
          let (n, rest, e) =
            add_install-eq_resolved id v (resolve_installs c s env_ns m) m'
              (rw (plain, resolve_installs) at h) in
          rw e (plain, resolve_installs-HasNoReferences m n rest)
      | inr (raw, ref) ↦ elim (FlakeResolution-cases (resolve_flake c s env_ns id raw)) [
        | inl (e, bad) ↦ cc (rw (ref, bad, resolve_installs) at h)
        | inr (inl wait) ↦ cc (rw (ref, wait, resolve_installs) at h)
        | inr (inr (flake, done)) ↦
            let (n, rest, e) =
              add_install-eq_resolved id (set_flake flake v) (resolve_installs c s env_ns m) m'
                (rw (ref, done, resolve_installs) at h) in
            rw e (
              catalog_flake-set_flake flake raw v
                  (tarball-has_prefix flake (resolve_flake-IsTarball id raw flake done)) ref,
              resolve_installs-HasNoReferences m n rest,
            )
      ]
    ]
