-- ===== src/Manifest/Rewriting.antt =====
-- What resolveFlakeInstalls writes into the install table.
use flox_controller.Prelude.{
  String, ◌<>◌, false, Option, none, some, ◌==◌, string_eq, nat_eq, if◌then◌else◌, has_prefix, ok,
  ◌≡◌, refl, subst, arith, Bool-cases, Option-cases, Result-cases, ◌⊎◌, inl, inr,
}
use flox_controller.Api.{FloxCatalog}
use flox_controller.Client.{Client}
use flox_controller.Manifest.{
  Value, null, text, table, Fields, end, field, lookup_field, set_field, resolved, concrete,
  FloxCatalogRef, output_of, resolve_ref, resolve_flake, parse_flox_catalog_ref, catalog_flake,
  set_flake, resolve_installs, flox_catalog_scheme,
}
use flox_controller.Manifest.Resolution.{
  lookup_field-set_field, add_install-eq_resolved, FlakeResolution-cases,
}

module _ (c : Client) where
  -- The install's flake is a reference to a catalog, which is there and has been resolved; of the
  -- resolved install, the flake is what the catalog publishes, with the output that the reference
  -- names, and every other field is as it was. A reference without a namespace is to a catalog of the
  -- environment's.
  pub record IsRewritten (s : c.State) (env_ns : String) (v v' : Value) : Type 0 where
    pub raw : String
    pub entry : Fields
    pub entry' : Fields
    pub ref : FloxCatalogRef
    pub catalog : FloxCatalog
    pub before : v ≡ table entry
    pub after : v' ≡ table entry'
    pub refers : lookup_field "flake" entry ≡ some (text raw)
    pub parsed : parse_flox_catalog_ref raw ≡ ok ref
    pub found :
        c.get_catalog s (if ref.namespace == "" then env_ns else ref.namespace) ref.name
        ≡ ok catalog
    pub published : (catalog.status.flake_ref == "") ≡ false
    pub fields :
        (j : String)
        → lookup_field j entry' ≡ (
            if j == "flake"
            then some (
                text (
                  if ref.output == ""
                  then catalog.status.flake_ref
                  else catalog.status.flake_ref <> ("#" <> ref.output)))
            else lookup_field j entry)

  -- What the loop does to one install.
  abbrev pub ResolvedInstall : c.State → String → Value → Value → Type 0
  ResolvedInstall s env_ns v v' = ((catalog_flake v ≡ none) × (v' ≡ v)) ⊎ IsRewritten s env_ns v v'

  text_of :
      (o : Option Value) (raw : String)
      → (elim o [
        | some (text t) ↦ if has_prefix t flox_catalog_scheme then some t else none
        | _ ↦ none
      ])
        ≡ some raw
      → o ≡ some (text raw)
  text_of none raw h = cc
  text_of (some (text t)) raw h = ground (arith, h)
  text_of (some v) raw h = cc

  catalog_flake-table :
      (v : Value) (raw : String)
      → catalog_flake v ≡ some raw
      → (entry : Fields) × (v ≡ table entry) × (lookup_field "flake" entry ≡ some (text raw))
  unfolding catalog_flake
  catalog_flake-table (table entry) raw h =
      (entry, refl, text_of (lookup_field "flake" entry) raw h)
  catalog_flake-table null raw h = cc
  catalog_flake-table _ raw h = cc

  resolve_flake_parts :
      (s : c.State) (env_ns id raw flake : String)
      → resolve_flake c s env_ns id raw ≡ ok (concrete flake)
      → (ref : FloxCatalogRef) × (catalog : FloxCatalog) × (parse_flox_catalog_ref raw ≡ ok ref)
        × (c.get_catalog s (if ref.namespace == "" then env_ns else ref.namespace) ref.name
            ≡ ok catalog)
        × ((catalog.status.flake_ref == "") ≡ false)
        × (flake ≡ (
            if ref.output == ""
            then catalog.status.flake_ref
            else catalog.status.flake_ref <> ("#" <> ref.output)))
  unfolding resolve_flake resolve_ref output_of
  resolve_flake_parts s env_ns id raw flake h = elim (Result-cases (parse_flox_catalog_ref raw)) [
    | inl (e, bad) ↦ cc (rw (bad, resolve_flake) at h)
    | inr (ref, read) ↦
        let ns : String = if ref.namespace == "" then env_ns else ref.namespace in
        let step : resolve_ref c s env_ns id ref ≡ ok (concrete flake) =
          rw (read, resolve_flake) at h in
        elim (Result-cases (c.get_catalog s ns ref.name)) [
          | inl (e, bad) ↦ cc (rw (bad, resolve_ref) at step)
          | inr (f, found) ↦
              let out : ok (output_of ref f) ≡ ok (concrete flake) =
                rw (found, resolve_ref) at step in
              elim (Bool-cases (f.status.flake_ref == "")) [
                | inl bare ↦ cc (rw bare at out)
                | inr given ↦ (ref, f, read, found, given, ground (arith, out))
              ]
        ]
  ]

  rewritten :
      (s : c.State) (env_ns id raw flake : String) (v : Value)
      → catalog_flake v ≡ some raw
      → resolve_flake c s env_ns id raw ≡ ok (concrete flake)
      → IsRewritten s env_ns v (set_flake flake v)
  unfolding set_flake
  rewritten s env_ns id raw flake v refers done =
      let (entry, before, here) = catalog_flake-table v raw refers in
      let (ref, f, parsed, found, published, same) =
        resolve_flake_parts s env_ns id raw flake done in
      record {
        raw = raw;
        entry = entry;
        entry' = set_field "flake" (text flake) entry;
        ref = ref;
        catalog = f;
        before = before;
        after = rw before refl;
        refers = here;
        parsed = parsed;
        found = found;
        published = published;
        fields = λ j. rw (← same) (lookup_field-set_field j "flake" (text flake) entry);
      }

  -- The same installs in the same order, each resolved.
  abbrev pub AllResolved : c.State → String → Fields → Fields → Type 0
  AllResolved s env_ns end end = Unit
  AllResolved s env_ns end (field j w n) = ⊥
  AllResolved s env_ns (field id v m) end = ⊥
  AllResolved s env_ns (field id v m) (field j w n) =
      (id ≡ j) × ResolvedInstall s env_ns v w × AllResolved s env_ns m n

  -- A table that the loop ends with has the same installs. One without a reference is as it was,
  -- and one with a reference is rewritten: its flake is what the catalog publishes.
  pub resolve_installs-AllResolved :
      (s : c.State) (env_ns : String) (m m' : Fields)
      → resolve_installs c s env_ns m ≡ ok (resolved m')
      → AllResolved s env_ns m m'
  unfolding resolve_installs
  resolve_installs-AllResolved s env_ns end m' h =
      let e : end ≡ m' = ground arith in subst (AllResolved s env_ns end) e tt
  resolve_installs-AllResolved s env_ns (field id v m) m' h =
      elim (Option-cases (catalog_flake v)) [
        | inl plain ↦
            let (n, rest, e) =
              add_install-eq_resolved id v (resolve_installs c s env_ns m) m'
                (rw (plain, resolve_installs) at h) in
            rw e (refl, inl (plain, refl), resolve_installs-AllResolved s env_ns m n rest)
        | inr (raw, ref) ↦ elim (FlakeResolution-cases (resolve_flake c s env_ns id raw)) [
          | inl (e, bad) ↦ cc (rw (ref, bad, resolve_installs) at h)
          | inr (inl wait) ↦ cc (rw (ref, wait, resolve_installs) at h)
          | inr (inr (flake, done)) ↦
              let (n, rest, e) =
                add_install-eq_resolved id (set_flake flake v) (resolve_installs c s env_ns m) m'
                  (rw (ref, done, resolve_installs) at h) in
              rw e (
                refl,
                inr (rewritten s env_ns id raw flake v ref done),
                resolve_installs-AllResolved s env_ns m n rest,
              )
        ]
      ]
