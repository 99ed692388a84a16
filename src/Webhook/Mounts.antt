-- ===== src/Webhook/Mounts.antt =====
-- The containers of an admitted pod mount the nix stores that the annotations give them, each from a
-- volume for its claim.
use flox_controller.Prelude.{
  String, Bool, true, false, ◌&&◌, not, none, some, List, [], ◌∷◌, ◌==◌, string_eq, if◌then◌else◌,
  contains, is_nil, ◌≡◌, refl, ◌∙◌, ap, subst, arith, path_of_eq, Bool-cases, Option-cases, inl,
  inr,
}
use flox_controller.Prelude.Dict.{Dict, lookup}
use flox_controller.Core.{Pod, Container, Volume, VolumeMount}
use flox_controller.Webhook.{
  PodFloxMutator, nix_build_targets, map_containers, each_container, has_volume, append_volume,
  add_volume, at_target, ensure_nix_store_pvc, ensure_volumes, inject_nix_build,
}
use flox_controller.Webhook.Containers.{
  has_mount, append_mount, mount_nix_store, nix_build_store_mount,
}
use flox_controller.Webhook.Store.{asks_for}

-- The mounts and the volumes of a name.
abbrev pub mounts_named : String → List VolumeMount → List VolumeMount
mounts_named n [] = []
mounts_named n (m ∷ mounts) =
    if m.name == n then m ∷ mounts_named n mounts else mounts_named n mounts

abbrev pub volumes_named : String → List Volume → List Volume
volumes_named n [] = []
volumes_named n (v ∷ volumes) =
    if v.name == n then v ∷ volumes_named n volumes else volumes_named n volumes

has_mount-mounts_named :
    (mounts : List VolumeMount) (n : String)
    → has_mount mounts n ≡ not (is_nil (mounts_named n mounts))
unfolding has_mount
has_mount-mounts_named [] n = refl
has_mount-mounts_named (m ∷ mounts) n = ground (arith, has_mount-mounts_named mounts n)

pub has_volume-volumes_named :
    (volumes : List Volume) (n : String)
    → has_volume volumes n ≡ not (is_nil (volumes_named n volumes))
unfolding has_volume
has_volume-volumes_named [] n = refl
has_volume-volumes_named (v ∷ volumes) n = ground (arith, has_volume-volumes_named volumes n)

mounts_named-append_mount :
    (mounts : List VolumeMount) (m : VolumeMount) (n : String)
    → is_nil (mounts_named m.name mounts) ≡ true
    → mounts_named n (append_mount mounts m)
      ≡ (if n == m.name then m ∷ [] else mounts_named n mounts)
unfolding append_mount
mounts_named-append_mount [] m n h = ground (arith, path_of_eq n m.name)
mounts_named-append_mount (v ∷ mounts) m n h =
    ground (arith, mounts_named-append_mount mounts m n, path_of_eq n m.name)

volumes_named-append_volume :
    (volumes : List Volume) (w : Volume) (n : String)
    → is_nil (volumes_named w.name volumes) ≡ true
    → volumes_named n (append_volume volumes w)
      ≡ (if n == w.name then w ∷ [] else volumes_named n volumes)
unfolding append_volume
volumes_named-append_volume [] w n h = ground (arith, path_of_eq n w.name)
volumes_named-append_volume (v ∷ volumes) w n h =
    ground (arith, volumes_named-append_volume volumes w n, path_of_eq n w.name)

abbrev pub claim_volume : String → Volume
claim_volume n = record { name = n; claim_name = some n }

abbrev pub store_mount : String → VolumeMount
store_mount n = record { name = n; mount_path = nix_build_store_mount }

-- The mount of the nix store, which keeps the container's name.
mount_nix_store_mounts :
    (c : Container) (claim n : String)
    → mounts_named n (mount_nix_store c claim).volume_mounts ≡ (
        if n == claim && is_nil (mounts_named n c.volume_mounts)
        then store_mount n ∷ []
        else mounts_named n c.volume_mounts)
unfolding mount_nix_store
mount_nix_store_mounts c claim n = ground (
  arith,
  has_mount-mounts_named c.volume_mounts claim,
  mounts_named-append_mount c.volume_mounts (store_mount claim) n,
  path_of_eq n claim,
)

add_volume_volumes :
    (pod : Pod) (claim n : String)
    → volumes_named n (add_volume pod claim).spec.volumes ≡ (
        if n == claim && is_nil (volumes_named n pod.spec.volumes)
        then claim_volume n ∷ []
        else volumes_named n pod.spec.volumes)
unfolding add_volume
add_volume_volumes pod claim n = ground (
  arith,
  has_volume-volumes_named pod.spec.volumes claim,
  volumes_named-append_volume pod.spec.volumes (claim_volume claim) n,
  path_of_eq n claim,
)

-- What a container's annotation asks for.
abbrev pub asks : Dict String String → Container → String → Bool
asks targets c n = elim (lookup c.name targets) [ none ↦ false | some claim ↦ n == claim ]

-- The container has its mounts, and the one for the store that it asks for where it had none of that
-- name.
abbrev pub IsMounted : Dict String String → Container → Container → Type 0
IsMounted targets c d =
    (d.name ≡ c.name)
    × ((n : String)
        → mounts_named n d.volume_mounts ≡ (
            if asks targets c n && is_nil (mounts_named n c.volume_mounts)
            then store_mount n ∷ []
            else mounts_named n c.volume_mounts))

abbrev pub AllMounted : Dict String String → List Container → List Container → Type 0
AllMounted targets [] [] = Unit
AllMounted targets (c ∷ cs) (d ∷ ds) = IsMounted targets c d × AllMounted targets cs ds
AllMounted targets [] (d ∷ ds) = ⊥
AllMounted targets (c ∷ cs) [] = ⊥

-- The pod has its volumes, and one for each claim that is asked for where it had none of that name.
abbrev pub HasStores : Dict String String → List Volume → List Volume → Type 0
HasStores targets before after =
    (n : String)
    → volumes_named n after ≡ (
        if asks_for n targets && is_nil (volumes_named n before)
        then claim_volume n ∷ []
        else volumes_named n before)

mount_nix_store_name : (c : Container) (claim : String) → (mount_nix_store c claim).name ≡ c.name
unfolding mount_nix_store
mount_nix_store_name c claim = ground arith

at_target-IsMounted :
    (targets : Dict String String) (c : Container)
    → IsMounted targets c (at_target mount_nix_store targets c)
unfolding at_target
at_target-IsMounted targets c = elim (Option-cases (lookup c.name targets)) [
  | inl unasked ↦ rw (unasked, at_target) (refl, λ n. ground arith)
  | inr (claim, asked) ↦
      rw (asked, at_target)
        (mount_nix_store_name c claim, λ n. ground (arith, mount_nix_store_mounts c claim n))
]

AllMounted-map_containers :
    (targets : Dict String String) (cs : List Container)
    → AllMounted targets cs (map_containers (at_target mount_nix_store targets) cs)
unfolding map_containers
AllMounted-map_containers targets [] = tt
AllMounted-map_containers targets (c ∷ cs) =
    (at_target-IsMounted targets c, AllMounted-map_containers targets cs)

AllMounted-empty :
    (targets : Dict String String) (cs : List Container)
    → is_nil targets ≡ true
    → AllMounted targets cs cs
unfolding lookup
AllMounted-empty targets [] e = tt
AllMounted-empty [] (c ∷ cs) e = ((refl, λ n. ground arith), AllMounted-empty [] cs e)
AllMounted-empty (t ∷ targets) (c ∷ cs) e = cc

pub asks_for-nil :
    (n : String) (targets : Dict String String) → is_nil targets ≡ true → asks_for n targets ≡ false
asks_for-nil n [] e = refl
asks_for-nil n (t ∷ targets) e = cc

abbrev pub with_volumes : Pod → List Volume → Pod
with_volumes pod volumes = record pod { spec = record (pod.spec) { volumes = volumes } }

with_volumes-add_volume :
    (pod : Pod) (claim : String) (volumes : List Volume)
    → with_volumes (add_volume pod claim) volumes ≡ with_volumes pod volumes
unfolding add_volume
with_volumes-add_volume pod claim volumes = ground arith

module _ (i : PodFloxMutator) where
  open i use {client}

  -- The claims ensured so far have volumes.
  abbrev Ensured : List String → Pod → Type 0
  Ensured ensured pod =
      (n : String) → contains ensured n ≡ true → is_nil (volumes_named n pod.spec.volumes) ≡ false

  Ensured-add_volume :
      (ensured : List String) (pod : Pod) (claim : String)
      → Ensured ensured pod
      → Ensured (claim ∷ ensured) (add_volume pod claim)
  Ensured-add_volume ensured pod claim h n m = ground (arith, add_volume_volumes pod claim n, h n)

  pub HasStores-ensure_volumes :
      (s : client.State) (pod : Pod) (targets : Dict String String) (ensured : List String)
      → (ensure_volumes i s pod targets ensured).0 ≡ none
      → Ensured ensured pod
      → HasStores targets pod.spec.volumes (ensure_volumes i s pod targets ensured).1.spec.volumes
  unfolding ensure_volumes
  HasStores-ensure_volumes s pod [] ensured done h n = ground arith
  HasStores-ensure_volumes s pod ((container, claim) ∷ targets) ensured done h n =
      elim (Bool-cases (contains ensured claim)) [
        | inl again ↦
            let ih =
              HasStores-ensure_volumes s pod targets ensured (rw (again, ensure_volumes) at done) h
                n in
            rw (again, ensure_volumes) (ground (arith, ih, h claim again, path_of_eq n claim))
        | inr new ↦ elim (Option-cases (ensure_nix_store_pvc i s pod.namespace claim).0) [
          | inl made ↦
              let ih =
                HasStores-ensure_volumes (ensure_nix_store_pvc i s pod.namespace claim).1
                  (add_volume pod claim) targets (claim ∷ ensured)
                  (rw (new, made, ensure_volumes) at done) (Ensured-add_volume ensured pod claim h)
                  n in
              rw (new, made, ensure_volumes) (ground (arith, ih, add_volume_volumes pod claim n))
          | inr (e, failed) ↦ cc (rw (new, failed, ensure_volumes) at done)
        ]
      ]

  -- The loop changes the volumes and nothing else.
  pub ensure_volumes_keeps :
      (s : client.State) (pod : Pod) (targets : Dict String String) (ensured : List String)
      → (ensure_volumes i s pod targets ensured).1
        ≡ with_volumes pod (ensure_volumes i s pod targets ensured).1.spec.volumes
  unfolding ensure_volumes
  ensure_volumes_keeps s pod [] ensured = refl
  ensure_volumes_keeps s pod ((container, claim) ∷ targets) ensured =
      elim (Bool-cases (contains ensured claim)) [
        | inl again ↦ rw (again, ensure_volumes) (ensure_volumes_keeps s pod targets ensured)
        | inr new ↦ elim (Option-cases (ensure_nix_store_pvc i s pod.namespace claim).0) [
          | inl made ↦
              let ih =
                ensure_volumes_keeps (ensure_nix_store_pvc i s pod.namespace claim).1
                  (add_volume pod claim) targets (claim ∷ ensured) in
              rw (new, made, ensure_volumes) (ih ∙ with_volumes-add_volume pod claim _)
          | inr (e, failed) ↦ rw (new, failed, ensure_volumes) refl
        ]
      ]

  ensure_volumes_containers :
      (s : client.State) (pod : Pod) (targets : Dict String String) (ensured : List String)
      → ((ensure_volumes i s pod targets ensured).1.spec.containers ≡ pod.spec.containers)
        × ((ensure_volumes i s pod targets ensured).1.spec.init_containers
            ≡ pod.spec.init_containers)
  ensure_volumes_containers s pod targets ensured =
      let kept = ensure_volumes_keeps s pod targets ensured in
      (ap (λ (p : Pod). p.spec.containers) kept, ap (λ (p : Pod). p.spec.init_containers) kept)

  -- A pod that the webhook accepts has its volumes, and of the name of each claim that an annotation
  -- asks for, where it had no volume of that name, one volume of the claim. Each container, init
  -- containers too, has its mounts, and of the name of the claim that its own annotation asks for,
  -- where it had no mount of that name, one mount at the path of the build store.
  pub inject_nix_build-AllMounted :
      (s : client.State) (pod : Pod)
      → (inject_nix_build i s pod).0 ≡ none
      → let admitted = (inject_nix_build i s pod).1 in
        let targets = nix_build_targets pod.annotations in
        HasStores targets pod.spec.volumes admitted.spec.volumes
        × AllMounted targets pod.spec.init_containers admitted.spec.init_containers
        × AllMounted targets pod.spec.containers admitted.spec.containers
  unfolding inject_nix_build each_container
  inject_nix_build-AllMounted s pod done =
      let targets = nix_build_targets pod.annotations in
      elim (Bool-cases (is_nil targets)) [
        | inl empty ↦
            rw (empty, inject_nix_build)
              (
                λ n. ground (arith, asks_for-nil n targets empty),
                AllMounted-empty targets _ empty,
                AllMounted-empty targets _ empty,
              )
        | inr full ↦ elim (Option-cases (ensure_volumes i s pod targets []).0) [
          | inl made ↦
              let stored = HasStores-ensure_volumes s pod targets [] made (λ n h. cc) in
              let (same, same_init) = ensure_volumes_containers s pod targets [] in
              let after = (ensure_volumes i s pod targets []).1 in
              rw (full, made, inject_nix_build)
                (
                  stored,
                  subst
                      (λ cs. AllMounted targets cs (
                        map_containers (at_target mount_nix_store targets)
                          after.spec.init_containers))
                      same_init (AllMounted-map_containers targets after.spec.init_containers),
                  subst
                      (λ cs.
                        AllMounted targets cs (
                          map_containers (at_target mount_nix_store targets) after.spec.containers))
                      same (AllMounted-map_containers targets after.spec.containers),
                )
          | inr (e, failed) ↦ cc (rw (full, failed, inject_nix_build) at done)
        ]
      ]
