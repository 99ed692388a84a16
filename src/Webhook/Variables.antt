-- ===== src/Webhook/Variables.antt =====
-- The variables of a container after the injection: what the pod sets wins, and a second injection
-- changes nothing.
use mathlib.Core.Option
use flox_controller.Prelude.{
  String, true, Option, none, some, List, [], ◌∷◌, ◌++◌, ◌==◌, string_eq, if◌then◌else◌, is_some,
  map, All, ◌≡◌, refl, ◌∙◌, ap, arith, path_of_eq, Option-cases, inl, inr,
}
use flox_controller.Prelude.Dict.{Dict, lookup}
use flox_controller.Api.{InjectedEnv}
use flox_controller.Core.{Container, EnvVar}
use flox_controller.Floxenv.{Setting, settings}
use flox_controller.Webhook.Containers.{
  injected_env_var, upsert_var, setting_var, upsert_settings, upsert_injected, inject_flox_env_into,
}

abbrev pub or_var : Option EnvVar → Option EnvVar → Option EnvVar
or_var (some v) w = some v
or_var none w = w

-- The first variable of a name.
abbrev pub find_var : String → List EnvVar → Option EnvVar
find_var n [] = none
find_var n (v ∷ env) = if v.name == n then some v else find_var n env

-- The variable of a name that the container runs with: the last one counts.
abbrev pub last_var : String → List EnvVar → Option EnvVar
last_var n [] = none
last_var n (v ∷ env) = or_var (last_var n env) (if v.name == n then some v else none)

abbrev pub upsert_all : List EnvVar → List EnvVar → List EnvVar
upsert_all env [] = env
upsert_all env (v ∷ vs) = upsert_all (upsert_var env v) vs

-- What a flox container is given: the settings, then what its environment injects.
abbrev pub injected_vars : List InjectedEnv → List EnvVar
injected_vars injects = map setting_var settings ++ map injected_env_var injects

find_var-upsert_var :
    (n : String) (env : List EnvVar) (v : EnvVar)
    → find_var n (upsert_var env v) ≡ or_var (find_var n env) (find_var n (v ∷ []))
unfolding upsert_var
find_var-upsert_var n [] v = refl
find_var-upsert_var n (old ∷ env) v = ground (arith, find_var-upsert_var n env v)

find_var-upsert_all :
    (n : String) (env vs : List EnvVar)
    → find_var n (upsert_all env vs) ≡ or_var (find_var n env) (find_var n vs)
find_var-upsert_all n env [] = ground arith
find_var-upsert_all n env (v ∷ vs) =
    find_var-upsert_all n (upsert_var env v) vs ∙ ground (arith, find_var-upsert_var n env v)

upsert_settings-eq :
    (ss : List Setting) (c : Container)
    → upsert_settings ss c ≡ record c { env = upsert_all c.env (map setting_var ss) }
unfolding upsert_settings
upsert_settings-eq [] c = refl
upsert_settings-eq (s ∷ ss) c = upsert_settings-eq ss _

upsert_injected-eq :
    (injects : List InjectedEnv) (c : Container)
    → upsert_injected injects c ≡ record c { env = upsert_all c.env (map injected_env_var injects) }
unfolding upsert_injected
upsert_injected-eq [] c = refl
upsert_injected-eq (inj ∷ injects) c = upsert_injected-eq injects _

upsert_all-append :
    (env vs ws : List EnvVar) → upsert_all env (vs ++ ws) ≡ upsert_all (upsert_all env vs) ws
upsert_all-append env [] ws = refl
upsert_all-append env (v ∷ vs) ws = upsert_all-append (upsert_var env v) vs ws

-- The injection adds to the container's variables, and changes nothing else of it.
pub inject_flox_env_into-eq :
    (envs : Dict String String) (injects : Dict String (List InjectedEnv)) (c : Container)
    (name : String)
    → lookup c.name envs ≡ some name
    → inject_flox_env_into envs injects c
      ≡ record c { env = upsert_all c.env (injected_vars (Option.get_or (lookup name injects) [])) }
unfolding inject_flox_env_into
inject_flox_env_into-eq envs injects c name named =
    rw (named, inject_flox_env_into)
      (upsert_injected-eq (Option.get_or (lookup name injects) []) (upsert_settings settings c))

pub inject_flox_env_into-none :
    (envs : Dict String String) (injects : Dict String (List InjectedEnv)) (c : Container)
    → lookup c.name envs ≡ none
    → inject_flox_env_into envs injects c ≡ c
unfolding inject_flox_env_into
inject_flox_env_into-none envs injects c unnamed = rw (unnamed, inject_flox_env_into)

last_var-upsert_var :
    (n : String) (env : List EnvVar) (v : EnvVar)
    → last_var n (upsert_var env v) ≡ or_var (last_var n env) (find_var n (v ∷ []))
unfolding upsert_var
last_var-upsert_var n [] v = ground arith
last_var-upsert_var n (old ∷ env) v =
    ground (arith, last_var-upsert_var n env v, path_of_eq old.name v.name, path_of_eq v.name n)

last_var-upsert_all :
    (n : String) (env vs : List EnvVar)
    → last_var n (upsert_all env vs) ≡ or_var (last_var n env) (find_var n vs)
last_var-upsert_all n env [] = ground arith
last_var-upsert_all n env (v ∷ vs) =
    last_var-upsert_all n (upsert_var env v) vs ∙ ground (arith, last_var-upsert_var n env v)

-- After the injection into a container that opted in, the container runs with the pod's variable of a
-- name that the pod sets, the last that it sets, and else with the first of the settings and then of
-- the environment's own list, if any.
pub last_var-inject_flox_env_into :
    (envs : Dict String String) (injects : Dict String (List InjectedEnv)) (c : Container)
    (name n : String)
    → lookup c.name envs ≡ some name
    → last_var n (inject_flox_env_into envs injects c).env
      ≡ or_var
          (last_var n c.env)
          (find_var n (injected_vars (Option.get_or (lookup name injects) [])))
last_var-inject_flox_env_into envs injects c name n named =
    rw (inject_flox_env_into-eq envs injects c name named)
      (last_var-upsert_all n c.env (injected_vars (Option.get_or (lookup name injects) [])))

pub upsert_var_present :
    (env : List EnvVar) (v : EnvVar) → is_some (find_var v.name env) ≡ true → upsert_var env v ≡ env
unfolding upsert_var
upsert_var_present [] v h = cc
upsert_var_present (old ∷ env) v h = ground (arith, upsert_var_present env v)

abbrev pub Present : List EnvVar → List EnvVar → Type 0
Present env = All (λ v. is_some (find_var v.name env) ≡ true)

pub upsert_all-Present : (env vs : List EnvVar) → Present env vs → upsert_all env vs ≡ env
upsert_all-Present env [] h = refl
upsert_all-Present env (v ∷ vs) h =
    rw (upsert_var_present env v h.0) (upsert_all-Present env vs h.1)

is_some-or_var_left : (o p : Option EnvVar) → is_some o ≡ true → is_some (or_var o p) ≡ true
is_some-or_var_left o p h = ground arith

is_some-or_var_right : (o p : Option EnvVar) → is_some p ≡ true → is_some (or_var o p) ≡ true
is_some-or_var_right o p h = ground arith

pub is_some-upsert_all :
    (env vs : List EnvVar) (n : String)
    → is_some (find_var n env) ≡ true
    → is_some (find_var n (upsert_all env vs)) ≡ true
is_some-upsert_all env vs n h =
    rw (find_var-upsert_all n env vs) (is_some-or_var_left _ (find_var n vs) h)

pub is_some-upsert_var :
    (env : List EnvVar) (v : EnvVar) → is_some (find_var v.name (upsert_var env v)) ≡ true
is_some-upsert_var env v =
    rw (find_var-upsert_var v.name env v)
      (is_some-or_var_right (find_var v.name env) _ (ground arith))

pub Present-upsert_all : (env vs : List EnvVar) → Present (upsert_all env vs) vs
Present-upsert_all env [] = tt
Present-upsert_all env (v ∷ vs) = (
  is_some-upsert_all (upsert_var env v) vs v.name (is_some-upsert_var env v),
  Present-upsert_all (upsert_var env v) vs,
)

upsert_all_idem : (env vs : List EnvVar) → upsert_all (upsert_all env vs) vs ≡ upsert_all env vs
upsert_all_idem env vs = upsert_all-Present (upsert_all env vs) vs (Present-upsert_all env vs)

-- A second injection into a container changes nothing, whatever it was given.
pub inject_flox_env_into_idem :
    (envs : Dict String String) (injects : Dict String (List InjectedEnv)) (c : Container)
    → inject_flox_env_into envs injects (inject_flox_env_into envs injects c)
      ≡ inject_flox_env_into envs injects c
inject_flox_env_into_idem envs injects c = elim (Option-cases (lookup c.name envs)) [
  | inl unnamed ↦
      ap (inject_flox_env_into envs injects) (inject_flox_env_into-none envs injects c unnamed)
  | inr (name, named) ↦ rw (inject_flox_env_into-eq envs injects c name named) (
      inject_flox_env_into-eq envs injects _ name named
      ∙ ap (λ (e : List EnvVar). record c { env = e })
          (upsert_all_idem c.env (injected_vars (Option.get_or (lookup name injects) []))))
]
