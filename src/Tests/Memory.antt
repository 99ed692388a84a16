-- ===== src/Tests/Memory.antt =====
-- An API server in memory, for the tests: its objects, and a client that nobody interferes with.

use flox_controller.Prelude.{
  String, Bool, ◌&&◌, Option, none, some, List, [], ◌∷◌, ◌==◌, string_eq, if◌then◌else◌, Result, ok,
  err, Error, not_found, other, ◌≡◌, refl, arith, ap, ◌⊎◌, inl, inr, eq_self,
}
use flox_controller.Api.{FloxEnv, FloxCatalog, ObjectMeta, Condition}
use flox_controller.Core.{Pod, Workload, deployment, PersistentVolumeClaim}
use flox_controller.Client.{Client}
use flox_controller.Conditions.{Conditions, IsLawful, status_is_true}
use flox_controller.EnvController.Settling.{IsQuiet}
use flox_controller.Catalog.Resolution.{IsMerging}
use flox_controller.Carrier.Ownership.{IsStoring}

pub record World : Type 0 where
  pub envs : List FloxEnv
  pub catalogs : List FloxCatalog
  pub pods : List Pod
  pub workloads : List Workload
  pub claims : List PersistentVolumeClaim

module _ {A : Type 0} (meta_of : A → ObjectMeta) where
  abbrev is_named : String → String → A → Bool
  is_named ns name a = (meta_of a).namespace == ns && (meta_of a).name == name

  -- The object of a name.
  abbrev pub find_named : List A → String → String → Result A
  find_named [] ns name = err (not_found name)
  find_named (a ∷ xs) ns name = if is_named ns name a then ok a else find_named xs ns name

  -- The objects with one of them replaced.
  abbrev pub replace_named : List A → A → List A
  replace_named [] b = []
  replace_named (a ∷ xs) b =
      if is_named (meta_of b).namespace (meta_of b).name a then b ∷ xs else a ∷ replace_named xs b

  abbrev pub with_name : List A → A → Result A
  with_name xs b = elim (find_named xs (meta_of b).namespace (meta_of b).name) [
    | ok a ↦ ok b
    | err e ↦ err e
  ]

  find_named-replace_named :
      (xs : List A) (b stored : A)
      → with_name xs b ≡ ok stored
      → (stored ≡ b)
        × (find_named (replace_named xs b) (meta_of b).namespace (meta_of b).name ≡ ok b)
  find_named-replace_named [] b stored h = cc
  find_named-replace_named (a ∷ xs) b stored h =
      ground (arith, find_named-replace_named xs b stored)

  find_named_lem :
      (xs : List A) (ns name : String) (a : A)
      → find_named xs ns name ≡ ok a
      → ((meta_of a).namespace ≡ ns) × ((meta_of a).name ≡ name)
  find_named_lem [] ns name a h = cc
  find_named_lem (b ∷ xs) ns name a h = ground (arith, find_named_lem xs ns name a)

abbrev unsupported : Error
unsupported = other "unsupported"

abbrev pub memory : Client
memory = record {
  State = World;
  get_env = λ s ns name. find_named (λ e. e.meta) s.envs ns name;
  list_envs = λ s. ok s.envs;
  list_envs_in = λ s ns. ok s.envs;
  create_env = λ s env. (ok env, record s { envs = env ∷ s.envs });
  update_env = λ s env. (
    with_name (λ e. e.meta) s.envs env,
    record s { envs = replace_named (λ e. e.meta) s.envs env },
  );
  patch_env = λ s base env. (
    with_name (λ e. e.meta) s.envs env,
    record s { envs = replace_named (λ e. e.meta) s.envs env },
  );
  patch_env_status = λ s base env. (
    with_name (λ e. e.meta) s.envs env,
    record s { envs = replace_named (λ e. e.meta) s.envs env },
  );
  get_catalog = λ s ns name. find_named (λ f. f.meta) s.catalogs ns name;
  list_catalogs = λ s. ok s.catalogs;
  list_catalogs_in = λ s ns. ok s.catalogs;
  patch_catalog_status = λ s base f. (
    with_name (λ f. f.meta) s.catalogs f,
    record s { catalogs = replace_named (λ f. f.meta) s.catalogs f },
  );
  get_git_repository = λ s ns name. err unsupported;
  get_pod = λ s ns name. find_named (λ p. p.meta) s.pods ns name;
  list_pods = λ s. ok s.pods;
  update_pod = λ s pod. (
    with_name (λ p. p.meta) s.pods pod,
    record s { pods = replace_named (λ p. p.meta) s.pods pod },
  );
  list_workloads = λ s kind. ok (elim kind [ deployment ↦ s.workloads | _ ↦ [] ]);
  patch_workload = λ s base w. (err unsupported, s);
  create_claim = λ s claim. (ok claim, record s { claims = claim ∷ s.claims });
}

pub memory-IsQuiet : IsQuiet memory
memory-IsQuiet = record {
  stored-patch =
      λ s base env stored h. find_named-replace_named (λ (e : FloxEnv). e.meta) s.envs env stored h;
  get_named = λ s ns name env h. find_named_lem (λ (e : FloxEnv). e.meta) s.envs ns name env h;
}

find_named-replace_other :
    {A : Type 0} (meta_of : A → ObjectMeta) (xs : List A) (b : A) (ns name : String) (g : A)
    → find_named meta_of (replace_named meta_of xs b) ns name ≡ ok g
    → (find_named meta_of xs ns name ≡ ok g) ⊎ (g ≡ b)
find_named-replace_other meta_of [] b ns name g h = cc
find_named-replace_other meta_of (a ∷ xs) b ns name g h =
    ground (arith, find_named-replace_other meta_of xs b ns name g)

pub memory-IsMerging : IsMerging memory
memory-IsMerging = record {
  get-patch = λ s base sent ns name g h.
      elim (find_named-replace_other (λ (f : FloxCatalog). f.meta) s.catalogs sent ns name g h) [
        | inl old ↦ inl old
        | inr same ↦ inr (ap (λ (f : FloxCatalog). f.status.flake_ref) same)
      ];
  get-patch_env = λ s base sent ns name. refl;
}

pub memory-IsStoring : IsStoring memory
memory-IsStoring = record {
  defaulted = λ spec. spec;
  get-create = λ s env stored h.
      (env, ground (arith, eq_self env.meta.namespace, eq_self env.meta.name), refl, refl);
  get-update = λ s env stored h.
      (env, (find_named-replace_named (λ (e : FloxEnv). e.meta) s.envs env stored h).1, refl, refl);
  get_named = λ s ns name env h. find_named_lem (λ (e : FloxEnv). e.meta) s.envs ns name env h;
}

abbrev find_condition : String → List Condition → Option Condition
find_condition t [] = none
find_condition t (c ∷ cs) = if t == c.type then some c else find_condition t cs

abbrev set_condition : Condition → List Condition → List Condition
set_condition c [] = c ∷ []
set_condition c (old ∷ cs) = if c.type == old.type then c ∷ cs else old ∷ set_condition c cs

abbrev pub listed : Conditions
listed = record {
  set = set_condition;
  find = find_condition;
  is_true = λ t cs. status_is_true (find_condition t cs);
}

find-set_condition :
    (t : String) (c : Condition) (cs : List Condition)
    → find_condition t (set_condition c cs) ≡ (if t == c.type then some c else find_condition t cs)
find-set_condition t c [] = ground arith
find-set_condition t c (old ∷ cs) = ground (arith, find-set_condition t c cs)

pub listed-IsLawful : IsLawful listed
listed-IsLawful = record { find-set = find-set_condition; is_true-find = λ t cs. refl }
