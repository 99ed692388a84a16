-- ===== src/Webhook/Injection.antt =====
-- The environments that the injection looks up are those that the pod waits for.
use flox_controller.Prelude.{
  String, Bool, true, false, ◌&&◌, ◌||◌, not, Option, none, some, List, ok, err, path_of_eq,
  Result-cases, [], ◌∷◌, ◌==◌, string_eq, if◌then◌else◌, contains, has_prefix, trim_prefix,
  split_last, ◌≡◌, ◌∙◌, sym, arith, Option-cases, ◌⊎◌, inl, inr, eq_self,
}
use flox_controller.Prelude.Dict.{Dict, lookup, insert, lookup-insert, lookup-nil}
use flox_controller.Floxenv.{EnvRef, ref_eq, parse_ref, refs_from_annotations, annotation_prefix}
use flox_controller.Floxenv.Refs.{some_names_ref, contains-refs_from_annotations}
use flox_controller.Api.{InjectedEnv}
use flox_controller.Webhook.{PodFloxMutator, opted_in, env_of, injects_of, resolve_injects}
use flox_controller.Webhook.Containers.{env_name}

-- The webhook's reading of an annotation's value is the name of the reference that it stands for.
env_name-eq : (v : String) → env_name v ≡ (parse_ref v).name
unfolding env_name parse_ref
env_name-eq v = elim (Option-cases (split_last b'/' v)) [
  | inl plain ↦ rw (plain, env_name, parse_ref)
  | inr ((folder, name), parts) ↦ rw (parts, env_name, parse_ref)
]

-- Some reference of the annotations has the name.
abbrev pub NamesEnv : String → Dict String String → Type 0
NamesEnv name annotations = (r : EnvRef) × (r.name ≡ name) × (some_names_ref r annotations ≡ true)

here_names :
    (k v : String) (annotations : Dict String String)
    → (has_prefix k annotation_prefix && not (v == "")) ≡ true
    → NamesEnv (env_name v) ((k, v) ∷ annotations)
here_names k v annotations h =
    (parse_ref v, sym (env_name-eq v), ground (arith, eq_self (parse_ref v)))

opted_in-NamesEnv :
    (annotations found : Dict String String) (container name : String)
    → lookup container (opted_in annotation_prefix env_name annotations found) ≡ some name
    → NamesEnv name annotations ⊎ (lookup container found ≡ some name)
unfolding opted_in
opted_in-NamesEnv [] found container name h = inr h
opted_in-NamesEnv ((k, v) ∷ annotations) found container name h =
    elim (opted_in-NamesEnv annotations
      (if has_prefix k annotation_prefix && not (v == "")
        then insert (trim_prefix k annotation_prefix) (env_name v) found
        else found)
      container name h) [
        | inl (r, named, listed) ↦ inl (r, named, ground arith)
        | inr here ↦ ground (
          arith,
          lookup-insert container (trim_prefix k annotation_prefix) (env_name v) found,
          here_names k v annotations,
        )
      ]

-- A container into which the webhook injects an environment has the name of one that the pod's
-- gate waits for.
env_of-refs_from_annotations :
    (annotations : Dict String String) (container name : String)
    → lookup container (env_of annotations) ≡ some name
    → (r : EnvRef) × (r.name ≡ name) × (contains (refs_from_annotations annotations) r ≡ true)
unfolding env_of
env_of-refs_from_annotations annotations container name h =
    elim (opted_in-NamesEnv annotations [] container name h) [
      | inl (r, named, listed) ↦ (r, named, contains-refs_from_annotations annotations r ∙ listed)
      | inr absent ↦ cc (lookup-nil {V = String} container)
    ]

-- Some container names the environment.
abbrev names_env : String → Dict String String → Bool
names_env k [] = false
names_env k ((container, name) ∷ envs) = k == name || names_env k envs

names_env_of_lookup :
    (container name : String) (envs : Dict String String)
    → lookup container envs ≡ some name
    → names_env name envs ≡ true
unfolding lookup
names_env_of_lookup container name [] h = cc
names_env_of_lookup container name ((k, v) ∷ envs) h =
    ground (arith, names_env_of_lookup container name envs, eq_self name)

abbrev or_list : Option (List InjectedEnv) → Option (List InjectedEnv) → Option (List InjectedEnv)
or_list (some l) m = some l
or_list none m = m

module _ (i : PodFloxMutator) where
  open i use {client}

  -- What the environment of a name in the configured namespace injects: nothing where it cannot be
  -- read.
  abbrev pub declared : client.State → String → List InjectedEnv
  declared s name = elim (client.get_env s i.flox_env_namespace name) [
    | err e ↦ []
    | ok env ↦ env.spec.inject
  ]

  lookup-injects_of :
      (s : client.State) (envs : Dict String String) (out : Dict String (List InjectedEnv))
      (k : String)
      → lookup k (injects_of i s envs out)
        ≡ or_list (lookup k out) (if names_env k envs then some (declared s k) else none)
  unfolding injects_of
  lookup-injects_of s [] out k = ground arith
  lookup-injects_of s ((container, name) ∷ envs) out k = elim (Option-cases (lookup name out)) [
    | inr (done, there) ↦
        rw (there, injects_of)
          (lookup-injects_of s envs out k ∙ ground (arith, there, path_of_eq k name))
    | inl new ↦ elim (Result-cases (client.get_env s i.flox_env_namespace name)) [
      | inl (e, bad) ↦
          rw (new, bad, injects_of)
            (lookup-injects_of s envs (insert name [] out) k
              ∙ ground (arith, lookup-insert k name [] out, new, bad, path_of_eq k name))
      | inr (env, good) ↦
          rw (new, good, injects_of)
            (lookup-injects_of s envs (insert name env.spec.inject out) k
              ∙ ground
                  (arith, lookup-insert k name env.spec.inject out, new, good, path_of_eq k name))
    ]
  ]

  -- What is injected into a container that opted in is what the environment of the configured
  -- namespace declares whose name is that of a reference that the pod's gate waits for. The webhook
  -- has a client and the namespace is set. The folder of the reference is not compared.
  pub resolve_injects-refs_from_annotations :
      (s : client.State) (annotations : Dict String String) (container name : String)
      → i.has_client ≡ true
      → (i.flox_env_namespace == "") ≡ false
      → lookup container (env_of annotations) ≡ some name
      → (lookup name (resolve_injects i s (env_of annotations)) ≡ some (declared s name))
        × ((r : EnvRef) × (r.name ≡ name) × (contains (refs_from_annotations annotations) r ≡ true))
  unfolding resolve_injects
  resolve_injects-refs_from_annotations s annotations container name there set h = (
    ground (
      arith,
      there,
      set,
      lookup-injects_of s (env_of annotations) [] name,
      names_env_of_lookup container name (env_of annotations) h,
      lookup-nil {V = List InjectedEnv} name,
    ),
    env_of-refs_from_annotations annotations container name h,
  )
