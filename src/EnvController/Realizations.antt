-- ===== src/EnvController/Realizations.antt =====
-- The realisations of an environment as a map from node to realisation, and what they say to the
-- next reconcile.
use flox_controller.Prelude.{
  String, true, Option, none, some, List, [], ◌∷◌, ◌==◌, string_eq, nat_eq, if◌then◌else◌, ◌≡◌,
  refl, arith,
}
use flox_controller.Prelude.Dict.{get}
use flox_controller.Api.{FloxEnv, NodeRealization}
use flox_controller.Conditions.{Conditions}
use flox_controller.EnvController.Types.{Reconciler, RealizeResult}
use flox_controller.EnvController.Status.{
  set_ready, realized_here, already_realized, upsert_realization, realized_env, relock_annotation,
}

-- The first realisation of a node.
abbrev pub realization_of : String → List NodeRealization → Option NodeRealization
realization_of node [] = none
realization_of node (nr ∷ realized) =
    if node == nr.node then some nr else realization_of node realized

abbrev pub NodupNodes : List NodeRealization → Type 0
NodupNodes [] = Unit
NodupNodes (nr ∷ realized) = (realization_of nr.node realized ≡ none) × NodupNodes realized

pub realization_of-upsert_realization :
    (node : String) (nr : NodeRealization) (realized : List NodeRealization)
    → realization_of node (upsert_realization nr realized)
      ≡ (if node == nr.node then some nr else realization_of node realized)
unfolding upsert_realization
realization_of-upsert_realization node nr [] = refl
realization_of-upsert_realization node nr (old ∷ realized) =
    ground (arith, realization_of-upsert_realization node nr realized)

upsert_realization-NodupNodes :
    (nr : NodeRealization) (realized : List NodeRealization)
    → NodupNodes realized
    → NodupNodes (upsert_realization nr realized)
unfolding upsert_realization
upsert_realization-NodupNodes nr [] u = (refl, tt)
upsert_realization-NodupNodes nr (old ∷ realized) u = ground (
  arith,
  upsert_realization-NodupNodes nr realized u.1,
  realization_of-upsert_realization old.node nr realized,
)

-- Recording a realisation replaces that of its node and no other, and keeps one for each node.
pub upsert_realization_lem :
    (nr : NodeRealization) (realized : List NodeRealization)
    → NodupNodes realized
    → NodupNodes (upsert_realization nr realized)
      × ((node : String)
          → realization_of node (upsert_realization nr realized)
            ≡ (if node == nr.node then some nr else realization_of node realized))
upsert_realization_lem nr realized u = (
  upsert_realization-NodupNodes nr realized u,
  λ node. realization_of-upsert_realization node nr realized,
)

realized_here-upsert_realization :
    (nr : NodeRealization) (realized : List NodeRealization)
    → nr.ready ≡ true
    → realized_here nr.node nr.observed_generation (upsert_realization nr realized) ≡ true
unfolding realized_here upsert_realization
realized_here-upsert_realization nr [] h = ground arith
realized_here-upsert_realization nr (old ∷ realized) h =
    ground (arith, realized_here-upsert_realization nr realized)

-- A change of the Ready condition alone does not make an environment count as realised, or cease
-- to: after a failure or a wait the work is still to be done.
pub already_realized-set_ready :
    (m : Conditions) (env : FloxEnv) (node status reason text : String)
    → already_realized node (set_ready m env status reason text) ≡ already_realized node env
unfolding already_realized
already_realized-set_ready m env node status reason text = refl

-- The status that is sent after a realise counts as realised, at the generation of the object that
-- it is sent for, if that object still has the relock annotation that the realise honoured; if it
-- has another, it does not.
pub already_realized-realized_env :
    (r : Reconciler) (env : FloxEnv) (res : RealizeResult) (relock : String)
    → already_realized r.node_name (realized_env r env res relock)
      ≡ (get env.annotations relock_annotation == relock)
unfolding already_realized realized_env
already_realized-realized_env r env res relock = ground (
  arith,
  realized_here-upsert_realization
      (record {
        node = r.node_name;
        ready = true;
        store_path = res.store_path;
        env_path = res.env_path;
        gcroot_path = res.gcroot_path;
        observed_generation = env.meta.generation;
      })
      env.status.realized refl,
)
