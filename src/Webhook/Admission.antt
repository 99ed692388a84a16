-- ===== src/Webhook/Admission.antt =====
-- A pod that is admitted again: the whole of `Default` changes nothing.
use flox_controller.Prelude.{
  String, true, false, none, some, List, [], ◌∷◌, ◌==◌, string_eq, contains, is_nil, ok, err,
  eq_self, ◌≡◌, refl, sym, ap, ◌∙◌, subst, arith, Bool-cases, Option-cases, ◌⊎◌, inl, inr,
}
use flox_controller.Prelude.Dict.{Dict, lookup, insert}
use flox_controller.Api.{InjectedEnv}
use flox_controller.Core.{Pod, Container, Volume}
use flox_controller.Floxenv.{refs_from_annotations}
use flox_controller.PodGate.{has_gate}
use flox_controller.Webhook.{
  PodFloxMutator, env_of, nix_build_targets, map_containers, each_container, has_volume, add_gate,
  add_volume, at_target, injects_of, resolve_injects, inject_flox_env, inject_flox_wait,
  ensure_nix_store_pvc, ensure_volumes, inject_nix_build, default,
}
use flox_controller.Webhook.Containers.{inject_flox_env_into, mount_nix_store}
use flox_controller.Webhook.Gate.{
  each_container_idem, inject_flox_wait-scheduled, inject_flox_wait-gated, inject_flox_wait-new,
  IsAdmitted, IsAdmitted-plain, IsAdmitted-scheduled, IsAdmitted-gated, has_gate-add_gate,
}
use flox_controller.Webhook.Mounts.{
  with_volumes, ensure_volumes_keeps, has_volume-volumes_named, HasStores-ensure_volumes,
  asks_for-nil,
}
use flox_controller.Webhook.Store.{asks_for}
use flox_controller.Webhook.Repeated.{
  inject_flox_env_into-at_target, map_containers_fixed, each_container_fixed, at_target-none,
  map_containers_id, at_target_idem,
}

module _ (i : PodFloxMutator) where
  open i use {client}

  add_volume_present :
      (pod : Pod) (claim : String)
      → has_volume pod.spec.volumes claim ≡ true
      → add_volume pod claim ≡ pod
  unfolding add_volume
  add_volume_present pod claim there = rw (there, add_volume) refl

  ensure_volumes_present :
      (s : client.State) (pod : Pod) (targets : Dict String String) (ensured : List String)
      → ((n : String) → asks_for n targets ≡ true → has_volume pod.spec.volumes n ≡ true)
      → (ensure_volumes i s pod targets ensured).1 ≡ pod
  unfolding ensure_volumes
  ensure_volumes_present s pod [] ensured h = refl
  ensure_volumes_present s pod ((container, claim) ∷ targets) ensured h =
      elim (Bool-cases (contains ensured claim)) [
        | inl again ↦
            rw (again, ensure_volumes)
              (ensure_volumes_present s pod targets ensured (λ n a. h n (ground arith)))
        | inr new ↦ elim (Option-cases (ensure_nix_store_pvc i s pod.namespace claim).0) [
          | inl made ↦
              let same = add_volume_present pod claim (h claim (ground (arith, eq_self claim))) in
              rw (new, made, ensure_volumes)
                (subst
                  (λ (p : Pod).
                    (ensure_volumes i (ensure_nix_store_pvc i s pod.namespace claim).1 p targets
                      (claim ∷ ensured)).1
                    ≡ pod)
                  (sym same)
                  (ensure_volumes_present (ensure_nix_store_pvc i s pod.namespace claim).1 pod
                    targets (claim ∷ ensured) (λ n a. h n (ground arith))))
          | inr (e, failed) ↦ rw (new, failed, ensure_volumes) refl
        ]
      ]

  injects_of_same :
      (s s' : client.State)
      → ((n : String)
          → client.get_env s' i.flox_env_namespace n ≡ client.get_env s i.flox_env_namespace n)
      → (envs : Dict String String) (out : Dict String (List InjectedEnv))
      → injects_of i s' envs out ≡ injects_of i s envs out
  unfolding injects_of
  injects_of_same s s' same [] out = refl
  injects_of_same s s' same ((container, name) ∷ envs) out =
      injects_of_same s s' same envs _
      ∙ ap (injects_of i s envs) (
          ap
            (λ r. elim (lookup name out) [
              | some done ↦ out
              | none ↦ elim r [
                | err e ↦ insert name [] out
                | ok env ↦ insert name env.spec.inject out
              ]
            ])
            (same name))

  abbrev SameEnvs : client.State → client.State → Type 0
  SameEnvs s s' =
      (n : String)
      → client.get_env s' i.flox_env_namespace n ≡ client.get_env s i.flox_env_namespace n

  resolve_injects_same :
      (s s' : client.State)
      → SameEnvs s s'
      → (envs : Dict String String) → resolve_injects i s' envs ≡ resolve_injects i s envs
  unfolding resolve_injects
  resolve_injects_same s s' same envs = ground (arith, injects_of_same s s' same envs [])

  -- What the injection does to each container of a pod with the annotations.
  abbrev injection : client.State → Dict String String → Container → Container
  injection s annotations =
      inject_flox_env_into (env_of annotations) (resolve_injects i s (env_of annotations))

  -- What the admission does to them.
  abbrev mounting : Dict String String → Container → Container
  mounting annotations = at_target mount_nix_store (nix_build_targets annotations)

  inject_flox_env_fixed :
      (s s' : client.State) (r : Pod) (cs ds : List Container)
      → SameEnvs s s'
      → r.spec.init_containers
        ≡ map_containers (mounting r.annotations) (map_containers (injection s r.annotations) cs)
      → r.spec.containers
        ≡ map_containers (mounting r.annotations) (map_containers (injection s r.annotations) ds)
      → inject_flox_env i s' r ≡ r
  unfolding inject_flox_env
  inject_flox_env_fixed s s' r cs ds same init main =
      let h = injection s' r.annotations in
      let envs = env_of r.annotations in
      let fixed = λ (c : Container).
        subst
          (λ injects.
            inject_flox_env_into envs injects (mounting r.annotations (injection s r.annotations c))
            ≡ mounting r.annotations (injection s r.annotations c))
          (sym (resolve_injects_same s s' same envs))
          (inject_flox_env_into-at_target envs (resolve_injects i s envs)
            (nix_build_targets r.annotations) c) in
      each_container_fixed h r
        (ap (map_containers h) init
          ∙ map_containers_fixed (mounting r.annotations) (injection s r.annotations) h cs fixed
          ∙ sym init)
        (ap (map_containers h) main
          ∙ map_containers_fixed (mounting r.annotations) (injection s r.annotations) h ds fixed
          ∙ sym main)

  -- The pod after the first step, where it names an environment.
  wait_parts :
      (s : client.State) (pod : Pod)
      → is_nil (refs_from_annotations pod.annotations) ≡ false
      → let q = inject_flox_wait i s pod in
        (q.annotations ≡ pod.annotations)
        × (q.spec.init_containers
            ≡ map_containers (injection s pod.annotations) pod.spec.init_containers)
        × (q.spec.containers ≡ map_containers (injection s pod.annotations) pod.spec.containers)
        × (((q.spec.node_name == "") ≡ false) ⊎ (has_gate q ≡ true))
  unfolding inject_flox_env each_container add_gate
  wait_parts s pod z = elim (Bool-cases (has_gate (inject_flox_env i s pod))) [
    | inl g ↦ rw (inject_flox_wait-gated i s pod z g) (refl, refl, refl, inr g)
    | inr g ↦ elim (Bool-cases (pod.spec.node_name == "")) [
      | inr n ↦ rw (inject_flox_wait-scheduled i s pod z n) (refl, refl, refl, inl n)
      | inl n ↦
          rw (inject_flox_wait-new i s pod z n g)
            (refl, refl, refl, inr (has_gate-add_gate i s (inject_flox_env i s pod)))
    ]
  ]

  -- The pod after the second step, and its volumes.
  nix_parts :
      (s : client.State) (q : Pod)
      → (inject_nix_build i s q).0 ≡ none
      → (volumes : List Volume) × ((inject_nix_build i s q).1
          ≡ each_container (mounting q.annotations) (with_volumes q volumes))
        × ((n : String)
            → asks_for n (nix_build_targets q.annotations) ≡ true
            → has_volume volumes n ≡ true)
  unfolding inject_nix_build
  nix_parts s q done =
      let targets = nix_build_targets q.annotations in
      elim (Bool-cases (is_nil targets)) [
        | inl empty ↦
            rw (empty, inject_nix_build)
              (
                q.spec.volumes,
                sym (
                    each_container_fixed (mounting q.annotations) q
                      (map_containers_id _ _ (λ c. at_target-none targets c empty))
                      (map_containers_id _ _ (λ c. at_target-none targets c empty))),
                λ n asked. (let none_asked = asks_for-nil n targets empty in cc),
              )
        | inr full ↦ elim (Option-cases (ensure_volumes i s q targets []).0) [
          | inl made ↦
              rw (full, made, inject_nix_build)
                (
                  (ensure_volumes i s q targets []).1.spec.volumes,
                  ap (each_container (mounting q.annotations))
                      (ensure_volumes_keeps i s q targets []),
                  λ n asked. ground (
                    arith,
                    HasStores-ensure_volumes i s q targets [] made (λ n h. cc) n,
                    has_volume-volumes_named (ensure_volumes i s q targets []).1.spec.volumes n,
                    asked,
                  ),
                )
          | inr (e, failed) ↦ cc (rw (full, failed, inject_nix_build) at done)
        ]
      ]

  -- The second step again.
  nix_again :
      (s' : client.State) (p : Pod)
      → ((n : String)
          → asks_for n (nix_build_targets p.annotations) ≡ true
          → has_volume p.spec.volumes n ≡ true)
      → let r = each_container (mounting p.annotations) p in (inject_nix_build i s' r).1 ≡ r
  unfolding inject_nix_build each_container
  nix_again s' p there =
      let r = each_container (mounting p.annotations) p in
      let targets = nix_build_targets p.annotations in
      let kept = ensure_volumes_present s' r targets [] there in
      elim (Bool-cases (is_nil targets)) [
        | inl empty ↦ rw (empty, inject_nix_build) refl
        | inr full ↦ elim (Option-cases (ensure_volumes i s' r targets []).0) [
          | inr (e, failed) ↦ rw (full, failed, inject_nix_build) kept
          | inl made ↦
              rw (full, made, inject_nix_build)
                (ap (each_container (mounting p.annotations)) kept
                  ∙ each_container_idem (mounting p.annotations) p (at_target_idem targets))
        ]
      ]

  -- The first step again, on a pod that comes out of both.
  wait_again :
      (s s' : client.State) (pod : Pod) (volumes : List Volume)
      → SameEnvs s s'
      → let q = inject_flox_wait i s pod in
        IsAdmitted i s' (each_container (mounting q.annotations) (with_volumes q volumes))
  unfolding each_container IsAdmitted has_gate
  wait_again s s' pod volumes same =
      let q = inject_flox_wait i s pod in
      let r = each_container (mounting q.annotations) (with_volumes q volumes) in
      elim (Bool-cases (is_nil (refs_from_annotations pod.annotations))) [
        | inl y ↦
            let untouched : q ≡ pod = IsAdmitted-plain i s pod y in
            IsAdmitted-plain i s' r
              (ap (λ (p : Pod). is_nil (refs_from_annotations p.annotations)) untouched ∙ y)
        | inr z ↦
            let (ann, init, main, ready) = wait_parts s pod z in
            let again = λ (cs : List Container).
              ap (λ (a : Dict String String). map_containers (injection s a) cs) (sym ann) in
            let fixed =
              inject_flox_env_fixed s s' r pod.spec.init_containers pod.spec.containers same
                (ap (map_containers (mounting q.annotations))
                  (init ∙ again pod.spec.init_containers))
                (ap (map_containers (mounting q.annotations)) (main ∙ again pod.spec.containers)) in
            elim ready [
              | inl n ↦ IsAdmitted-scheduled i s' r fixed n
              | inr g ↦ IsAdmitted-gated i s' r fixed g
            ]
      ]

  -- A pod that the webhook has accepted comes out of a second admission as it went in, whether that
  -- one succeeds or not, at any state of the server in which the webhook reads the same environments.
  pub default_idem :
      (s s' : client.State) (pod : Pod)
      → ((n : String)
          → client.get_env s' i.flox_env_namespace n ≡ client.get_env s i.flox_env_namespace n)
      → (default i s pod).0 ≡ none
      → (default i s' (default i s pod).1).1 ≡ (default i s pod).1
  unfolding default IsAdmitted each_container
  default_idem s s' pod same done =
      let q = inject_flox_wait i s pod in
      let (volumes, out, there) = nix_parts s q done in
      let p = with_volumes q volumes in
      let r = each_container (mounting q.annotations) p in
      let twice : (default i s' r).1 ≡ r =
        ap (λ (x : Pod). (inject_nix_build i s' x).1) (wait_again s s' pod volumes same)
        ∙ nix_again s' p there in
      subst (λ (x : Pod). (default i s' x).1 ≡ x) (sym out) twice
