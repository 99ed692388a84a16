-- ===== src/EnvController/Linked.antt =====
-- The reconciler with the provisioner of its node: the realisation that the status records is the one
-- that the plugin's link leads to.
use flox_controller.Prelude.{
  ℕ, String, true, ◌&&◌, not, none, some, List, [], ◌∷◌, ◌==◌, string_eq, Result, ok, err, ◌≡◌,
  refl, ap, sym, ◌∙◌, arith, Bool-cases, Option-cases, Result-cases, inl, inr, eq_self, subst,
}
use flox_controller.Prelude.Dict.{get}
use flox_controller.Api.{FloxEnv, NodeRealization}
use flox_controller.Core.{Workload}
use flox_controller.Floxenv
use flox_controller.Action.{Ends-value}
use flox_controller.Host.{Host, link_at}
use flox_controller.Host.Laws.{IsPlain, KeepsLinks}
use flox_controller.Filepath.{dir}
use flox_controller.Provisioner.{ExecProvisioner, gcroot_path}
use flox_controller.Provisioner.Realize.{realize}
use flox_controller.Provisioner.Atomicity.{IsApart, realize-Ends}
use flox_controller.EnvController.Types.{EnvRef, Reconciler, RealizeRequest, RealizeResult}
use flox_controller.EnvController.Status.{relock_annotation, realized_env, mark_realizing, fail}
use flox_controller.EnvController.Restart.{
  stamped, stamp_consumer, stamp_consumers, roll, restart_consumers,
}
use flox_controller.EnvController.Reconcile.{
  folder_of, consumption_of, lock_of, timeout_of, record_realized, deliver, realise,
}
use flox_controller.EnvController.Realizations.{realization_of, realization_of-upsert_realization}

-- The reconciler's provisioner works on the node, whose state is a part of the reconciler's, and the
-- writes to the API server leave the node as it is.
pub record RunsOn (r : Reconciler) (h : Host) (p : ExecProvisioner) : Type 0 where
  pub host_of : r.client.State → h.State
  pub realize_result :
      (s : r.client.State) (timeout : ℕ) (req : RealizeRequest)
      → (r.realize s timeout req).0 ≡ (realize h p req (host_of s)).0
  pub realize_host :
      (s : r.client.State) (timeout : ℕ) (req : RealizeRequest)
      → host_of (r.realize s timeout req).1 ≡ (realize h p req (host_of s)).1
  pub patch_env_status :
      (s : r.client.State) (base sent : FloxEnv)
      → host_of (r.client.patch_env_status s base sent).1 ≡ host_of s
  pub patch_workload :
      (s : r.client.State) (base sent : Workload)
      → host_of (r.client.patch_workload s base sent).1 ≡ host_of s

module _ (r : Reconciler) (h : Host) (p : ExecProvisioner) (on : RunsOn r h p) where
  open r use {client}

  stamp_consumer-host_of :
      (s : client.State) (w : Workload) (target : Floxenv.EnvRef) (digest : String)
      → on.host_of (stamp_consumer client s w target digest).1 ≡ on.host_of s
  unfolding stamp_consumer
  stamp_consumer-host_of s w target digest =
      ground (arith, on.patch_workload s w (stamped digest w))

  stamp_consumers-host_of :
      (s : client.State) (ws : List Workload) (target : Floxenv.EnvRef) (digest : String)
      → on.host_of (stamp_consumers client s ws target digest).1 ≡ on.host_of s
  unfolding stamp_consumers
  stamp_consumers-host_of s [] target digest = refl
  stamp_consumers-host_of s (w ∷ ws) target digest =
      stamp_consumers-host_of (stamp_consumer client s w target digest).1 ws target digest
      ∙ stamp_consumer-host_of s w target digest

  roll-host_of :
      (s : client.State) (target : Floxenv.EnvRef) (digest : String)
      (a b c : Result (List Workload))
      → on.host_of (roll client s target digest a b c).1 ≡ on.host_of s
  unfolding roll
  roll-host_of s target digest (err e) b c = refl
  roll-host_of s target digest (ok a) (err e) c = refl
  roll-host_of s target digest (ok a) (ok b) (err e) = refl
  roll-host_of s target digest (ok a) (ok b) (ok c) =
      stamp_consumers-host_of _ c target digest
      ∙ stamp_consumers-host_of _ b target digest
      ∙ stamp_consumers-host_of s a target digest

  restart_consumers-host_of :
      (s : client.State) (env : FloxEnv) (lock : String)
      → on.host_of (restart_consumers r s env lock).1 ≡ on.host_of s
  unfolding restart_consumers
  restart_consumers-host_of s env lock = roll-host_of s _ _ _ _ _

  -- A state that a status patch left, whose status has a realisation of this node that the link at
  -- its GC-root leads to.
  pub record Linked (root : String) (s : client.State) : Type 0 where
    pub base : FloxEnv
    pub sent : FloxEnv
    pub before : client.State
    pub patched : s ≡ (client.patch_env_status before base sent).1
    pub realization : NodeRealization
    pub recorded : realization_of r.node_name sent.status.realized ≡ some realization
    pub at_root : realization.gcroot_path ≡ root
    pub linked : link_at h (on.host_of s) realization.gcroot_path ≡ some realization.store_path

  record_realized-Linked :
      (s : client.State) (env : FloxEnv) (res : RealizeResult) (relock : String)
      → link_at h (on.host_of s) res.gcroot_path ≡ some res.store_path
      → Linked res.gcroot_path (record_realized r s env res relock).state
  unfolding record_realized realized_env
  record_realized-Linked s env res relock linked =
      let sent = realized_env r env res relock in
      let state : (record_realized r s env res relock).state
          ≡ (client.patch_env_status s env sent).1 =
        ground arith in
      let nr : NodeRealization = record {
        node = r.node_name;
        ready = true;
        store_path = res.store_path;
        env_path = res.env_path;
        gcroot_path = res.gcroot_path;
        observed_generation = env.meta.generation;
      } in
      record {
        base = env;
        sent = sent;
        before = s;
        patched = state;
        realization = nr;
        recorded =
            realization_of-upsert_realization r.node_name nr env.status.realized
            ∙ rw (eq_self {A = String} r.node_name) refl;
        at_root = refl;
        linked =
            ap (λ (t : h.State). link_at h t res.gcroot_path)
              (ap on.host_of state ∙ on.patch_env_status s env sent)
            ∙ linked;
      }

  deliver-Linked :
      (s : client.State) (env : FloxEnv) (res : RealizeResult) (previous relock : String)
      → link_at h (on.host_of s) res.gcroot_path ≡ some res.store_path
      → (deliver r s env res previous relock).error ≡ none
      → Linked res.gcroot_path (deliver r s env res previous relock).state
  unfolding deliver fail
  deliver-Linked s env res previous relock linked done =
      elim (Bool-cases (not (res.lock == "") && not (res.lock == previous))) [
        | inr same ↦ rw (same, deliver) (record_realized-Linked s env res relock linked)
        | inl changed ↦ elim (Option-cases (restart_consumers r s env res.lock).0) [
          | inr (e, failed) ↦ cc (rw (changed, failed, deliver) at done)
          | inl rolled ↦
              rw (changed, rolled, deliver)
                (record_realized-Linked (restart_consumers r s env res.lock).1 env res relock (
                  ap (λ (t : h.State). link_at h t res.gcroot_path)
                    (restart_consumers-host_of s env res.lock)
                  ∙ linked))
        ]
      ]

  -- The environment that a realise works for: the folder as read, the name as the Realizing patch
  -- returns it.
  abbrev pub ref_of : client.State → FloxEnv → EnvRef
  ref_of s env = record { folder = folder_of env; name = (mark_realizing r s env).0.name }

  -- Where a realise ends without an error, the status that it sent last has a realisation of this
  -- node, and the link at its GC-root, which the plugin reads, leads to its store path. The
  -- provisioner is the one of the node, on a plain host whose commands leave the GC-roots alone, and
  -- the environment's GC-root is apart.
  pub realise-Linked :
      IsPlain h
      → KeepsLinks h (dir p.gcroot_base)
      → (s : client.State) (env : FloxEnv) (toml : String)
      → IsApart p (ref_of s env) (gcroot_path p (ref_of s env))
      → (realise r s env toml).error ≡ none
      → Linked (gcroot_path p (ref_of s env)) (realise r s env toml).state
  unfolding realise fail
  realise-Linked plain keeps s env toml apart done =
      let req : RealizeRequest = record {
        ref = ref_of s env;
        manifest_toml = toml;
        lock = lock_of env;
        consumption = consumption_of env;
      } in
      let marked = mark_realizing r s env in
      let ran = r.realize marked.1 (timeout_of r) req in
      elim (Result-cases ran.0) [
        | inl (e, bad) ↦ cc (rw (bad, realise) at done)
        | inr (res, good) ↦
            let ends =
              Ends-value res (realize-Ends h plain p keeps req apart (on.host_of marked.1))
                (sym (on.realize_result marked.1 (timeout_of r) req) ∙ good) in
            let linked : link_at h (on.host_of ran.1) res.gcroot_path ≡ some res.store_path =
              ap (λ (t : h.State). link_at h t res.gcroot_path)
                (on.realize_host marked.1 (timeout_of r) req)
              ∙ ends.1 in
            let relock = get env.annotations relock_annotation in
            rw (good, realise)
              (subst
                (λ root. Linked root (deliver r ran.1 marked.0 res env.status.lock relock).state)
                ends.2
                (deliver-Linked ran.1 marked.0 res env.status.lock relock linked
                  (rw (good, realise) at done)))
      ]
