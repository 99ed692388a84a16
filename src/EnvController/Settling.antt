-- ===== src/EnvController/Settling.antt =====
-- The last steps of a reconcile leave a state in which the next one does nothing.
use flox_controller.Prelude.{
  String, ◌<>◌, true, ◌&&◌, not, none, some, List, ◌==◌, string_eq, nat_eq, ok, Error, ◌≡◌, refl,
  arith, Result-cases, Option-cases, Bool-cases, eq_self, inl, inr,
}
use flox_controller.Prelude.Dict.{get}
use flox_controller.Api.{FloxEnv, Condition}
use flox_controller.Client.{Client, NamespacedName, Outcome, finish, no_requeue}
use flox_controller.Conditions.{Conditions, IsLawful}
use flox_controller.EnvController.Types.{Reconciler, RealizeResult}
use flox_controller.EnvController.Status.{
  set_ready, already_realized, fail, mark_realizing, realized_env, relock_annotation,
}
use flox_controller.EnvController.Restart.{restart_consumers}
use flox_controller.EnvController.Realizations.{already_realized-realized_env}
use flox_controller.EnvController.Reconcile.{record_realized, deliver, reconcile_env, reconcile}

-- Nobody else writes environments: a status patch that succeeds stores what was sent. And a read
-- returns the object of the name that was asked for.
pub record IsQuiet (c : Client) : Type 0 where
  pub stored-patch :
      (s : c.State) (base env stored : FloxEnv)
      → (c.patch_env_status s base env).0 ≡ ok stored
      → (stored ≡ env)
        × (c.get_env (c.patch_env_status s base env).1 env.namespace env.name ≡ ok env)
  pub get_named :
      (s : c.State) (ns name : String) (env : FloxEnv)
      → c.get_env s ns name ≡ ok env
      → (env.namespace ≡ ns) × (env.name ≡ name)

pub find-set_ready :
    (m : Conditions)
    → IsLawful m
    → (c : Condition) (cs : List Condition) → c.type ≡ "Ready"
    → m.find "Ready" (m.set c cs) ≡ some c
find-set_ready m lawful c cs e = ground (arith, lawful.find-set "Ready" c cs)

module _ (r : Reconciler) (quiet : IsQuiet r.client) (lawful : IsLawful r.conditions)
    (req : NamespacedName) where
  open r use {client, conditions}

  -- An outcome after which, if it has no error and no requeue, a reconcile does nothing.
  abbrev pub Settles : Outcome client.State → Type 0
  Settles o = o.error ≡ none → o.result ≡ no_requeue → reconcile r o.state req ≡ finish none o.state

  pub settled :
      (s : client.State) (env : FloxEnv) (ready : Condition)
      → client.get_env s req.namespace req.name ≡ ok env
      → conditions.find "Ready" env.status.conditions ≡ some ready
      → already_realized r.node_name env ≡ true
      → reconcile r s req ≡ finish none s
  unfolding reconcile reconcile_env
  settled s env ready found cond done = rw (reconcile, found) (rw (reconcile_env, cond) (rw done))

  record_realized-Settles :
      (s : client.State) (env : FloxEnv) (res : RealizeResult) (relock : String)
      → env.namespace ≡ req.namespace
      → env.name ≡ req.name
      → get env.annotations relock_annotation ≡ relock
      → Settles (record_realized r s env res relock)
  unfolding record_realized realized_env
  record_realized-Settles s env res relock ns name token none_err plain =
      let sent : FloxEnv = realized_env r env res relock in
      elim (Result-cases (client.patch_env_status s env sent).0) [
        | inl (e, bad) ↦ cc (rw (bad, record_realized) at none_err)
        | inr (stored, good) ↦
            let s' : client.State = (client.patch_env_status s env sent).1 in
            rw (good, record_realized)
              (settled s' sent _ (rw (← ns, ← name) (quiet.stored-patch s env sent stored good).1)
                (find-set_ready conditions lawful _ _ refl)
                (rw already_realized-realized_env (rw token (eq_self relock))))
      ]

  pub fail-Settles :
      (s : client.State) (env : FloxEnv) (reason : String) (cause : Error)
      → Settles (fail r s env reason cause)
  unfolding fail
  fail-Settles s env reason cause none_err plain = cc

  pub deliver-Settles :
      (s : client.State) (env : FloxEnv) (res : RealizeResult) (previous relock : String)
      → env.namespace ≡ req.namespace
      → env.name ≡ req.name
      → get env.annotations relock_annotation ≡ relock
      → Settles (deliver r s env res previous relock)
  unfolding deliver
  deliver-Settles s env res previous relock ns name token =
      elim (Bool-cases (not (res.lock == "") && not (res.lock == previous))) [
        | inr same ↦ rw (deliver, same) (record_realized-Settles s env res relock ns name token)
        | inl changed ↦
            let s' : client.State = (restart_consumers r s env res.lock).1 in
            elim (Option-cases (restart_consumers r s env res.lock).0) [
              | inl rolled ↦
                  rw (deliver, changed)
                    (rw rolled (record_realized-Settles s' env res relock ns name token))
              | inr (e, bad) ↦
                  rw (deliver, changed) (rw bad (fail-Settles s' env "RestartConsumersFailed" e))
            ]
      ]

  -- The object that the Realizing patch leaves is the one that was sent.
  pub mark_realizing-eq :
      (s : client.State) (env : FloxEnv)
      → (mark_realizing r s env).0
        ≡ set_ready conditions env "False" "Realizing"
            ("realising the env closure on " <> r.node_name)
  unfolding mark_realizing
  mark_realizing-eq s env =
      let marked : FloxEnv =
        set_ready conditions env "False" "Realizing"
          ("realising the env closure on " <> r.node_name) in
      elim (Result-cases (client.patch_env_status s env marked).0) [
        | inl (e, bad) ↦ rw bad
        | inr (stored, good) ↦ rw good (quiet.stored-patch s env marked stored good).0
      ]
