-- ===== src/Tests/Copies.antt =====
-- An environment in memory, its copy, and what the reconciler then does to it.
use flox_controller.Prelude.{
  ℕ, String, ◌<>◌, Option, none, some, [], ◌∷◌, true, ◌==◌, nat_eq, if◌then◌else◌, ◌≡◌, refl, arith,
}
use flox_controller.Api.{NodeRealization}
use flox_controller.Copies.Heap.{Heap, Before, write, cell-write}
use flox_controller.Copies.Slices.{plain, copy_slice, copy_map}
use flox_controller.Copies.Layouts.{IsDeepCopy-flat, flat}
use flox_controller.Copies.References.{
  map_layout, pointer_layout, copy_map-IsDeepCopy, copy_slice-IsDeepCopy,
}
use flox_controller.Copies.Structs.{copy_both, copy_both-IsDeepCopy, struct-IsDeepCopy}
use flox_controller.Copies.Objects.{
  EnvObject, Cell, string_table, realization_array, condition_array, env_array, tables, bytes, envs,
}
use flox_controller.Copies.DeepCopy.{Library, copy_env, deep_copy_env}
use flox_controller.Copies.Resources.{meta_of, env_layout, status_layout, IsLibrary}
use flox_controller.Copies.Upsert.{upsert_in_place}
use flox_controller.Copies.Base.{upsert_in_place-copy_env}
use flox_controller.Copies.Separation.{its_env, deep_copy_env-separate}
use flox_controller.EnvController.Status.{upsert_realization}

-- The library's deep copies, in memory.
abbrev library : Library
library = record {
  text = λ l. elim l [ [] ↦ "" | x ∷ xs ↦ "{}" ];
  copy_meta = λ x h.
      let (v, h') = copy_both (copy_map tables) (copy_map tables) (x.annotations, x.labels) h in
      (record x { annotations = v.0; labels = v.1 }, h');
  copy_condition = plain;
  copy_raw = λ x h. let (v, h') = copy_slice bytes plain x.raw h in (record { raw = v }, h');
}

library-IsLibrary : IsLibrary library
library-IsLibrary = record {
  copy_meta-IsDeepCopy =
      struct-IsDeepCopy _ (λ x. (x.annotations, x.labels)) meta_of _
        (λ x y. record x { annotations = y.0; labels = y.1 }) (λ x y. refl) (λ x y v. refl)
        (copy_both-IsDeepCopy (map_layout tables) (map_layout tables) (copy_map tables)
          (copy_map tables) (copy_map-IsDeepCopy tables) (copy_map-IsDeepCopy tables));
  copy_condition-IsDeepCopy = IsDeepCopy-flat;
  copy_raw-IsDeepCopy =
      struct-IsDeepCopy _ (λ x. x.raw) (λ x v. library.text v) _ (λ x y. record { raw = y })
        (λ x y. refl) (λ x y v. refl) (copy_slice-IsDeepCopy bytes flat plain IsDeepCopy-flat);
}

abbrev on_node : String → String → NodeRealization
on_node node path = record {
  node = node;
  ready = true;
  store_path = path;
  env_path = path <> "/env";
  gcroot_path = "/gcroots/mesh/web";
  observed_generation = 1;
}

-- Its realisations are in an array that has room for another one.
abbrev env : EnvObject
env = record {
  meta = record {
    name = "web";
    namespace = "mesh";
    generation = 2;
    annotations = some 1;
    labels = none;
  };
  spec = record {
    consumption = "overlay";
    manifest = none;
    update = none;
    folder = "";
    depends_on = none;
    inject = none;
  };
  status = record {
    lock = "v1";
    relock_token = "";
    resolved = none;
    realized = some (record { array = 0; len = 1 });
    conditions = some (record { array = 2; len = 0 });
  };
}

abbrev cells : ℕ → Cell
cells a =
    if a == 0
    then realization_array (on_node "n1" "/nix/store/a" ∷ on_node "" "" ∷ [])
    else if a == 1
    then string_table (("flox.seedmatic.io/relock", "r1") ∷ [])
    else if a == 2
    then condition_array []
    else env_array (env ∷ [])

abbrev heap : Heap Cell
heap = record { next = 4; cell = cells }

env-Owns : (env_layout library).Owns (Before 4) heap env
unfolding flox_controller.Prelude.nat_eq flox_controller.Prelude.Dict.lookup
env-Owns = (
  ((omega arith, refl, (refl, tt)), tt),
  (
    (tt, (tt, (tt, tt))),
    (tt, ((omega arith, (refl, omega arith), (tt, tt)), (omega arith, (refl, omega arith), tt))),
  ),
)

upsert_in_place-copy_env_example :
    ((env_layout library).view
        (upsert_in_place []
          (on_node "n2" "/nix/store/b")
          env.status
          (copy_env library env heap).1).1
        (copy_env library env heap).0
      ≡ (env_layout library).view heap env)
    × (status_layout.view
          (upsert_in_place []
            (on_node "n2" "/nix/store/b")
            env.status
            (copy_env library env heap).1).1
          (upsert_in_place []
            (on_node "n2" "/nix/store/b")
            env.status
            (copy_env library env heap).1).0
        ≡ record (((env_layout library).view heap env).status) {
          realized =
              upsert_realization
                (on_node "n2" "/nix/store/b")
                ((env_layout library).view heap env).status.realized;
        })
upsert_in_place-copy_env_example =
    upsert_in_place-copy_env library library-IsLibrary heap env env-Owns []
      (on_node "n2" "/nix/store/b")

-- Another writer changes the array of the environment's realisations, and one that of its copy.
abbrev pointed : Option ℕ
pointed = some 3

pointed-Owns : (pointer_layout envs (env_layout library)).Owns (Before 4) heap pointed
unfolding flox_controller.Prelude.nat_eq
pointed-Owns = (omega arith, (refl, omega arith), (env-Owns, tt))

abbrev copied : Heap Cell
copied = (deep_copy_env library pointed heap).1

abbrev original_changed : Heap Cell
original_changed = write 0 (realization_array []) copied

abbrev copy_changed : Heap Cell
copy_changed = write 4 (env_array []) copied

deep_copy_env-separate_example :
    (its_env library original_changed (deep_copy_env library pointed heap).0
      ≡ its_env library heap pointed)
    × (its_env library copy_changed pointed ≡ its_env library heap pointed)
deep_copy_env-separate_example =
    deep_copy_env-separate library library-IsLibrary heap original_changed copy_changed pointed
      pointed-Owns (λ a b. ground (arith, cell-write 0 a (realization_array []) copied))
      (λ a b. ground (arith, cell-write 4 a (env_array []) copied))
