-- ===== src/EnvController/Stamps.antt =====
-- What a roll of the consumers leaves, and that a second one changes nothing.
use flox_controller.Prelude.{
  String, Bool, true, false, ◌&&◌, Option, none, some, List, [], ◌∷◌, ◌==◌, string_eq, nat_eq,
  contains, has_prefix, All, ok, Error, ◌≡◌, refl, sym, ◌∙◌, subst, arith, path_of_eq, eq_self,
  Bool-cases, Result-cases, ◌⊎◌, inl, inr,
}
use flox_controller.Prelude.Dict.{Dict, get, insert, lookup-insert}
use flox_controller.Core.{Workload, WorkloadKind, deployment, daemon_set, stateful_set}
use flox_controller.Client.{Client}
use flox_controller.Floxenv.{EnvRef, ref_eq, refs_from_annotations, annotation_prefix}
use flox_controller.Floxenv.Refs.{some_names_ref, refs_from_annotations-eq}
use flox_controller.EnvController.Restart.{
  restart_marker, needs_stamp, stamped, stamp_consumer, stamp_consumers, join_errors,
}

marker_is_no_opt_in : has_prefix restart_marker annotation_prefix ≡ false
unfolding has_prefix nat_eq
marker_is_no_opt_in = refl

some_names_ref-insert_marker :
    (target : EnvRef) (digest : String) (annotations : Dict String String)
    → some_names_ref target (insert restart_marker digest annotations)
      ≡ some_names_ref target annotations
unfolding insert
some_names_ref-insert_marker target digest [] = ground (arith, marker_is_no_opt_in)
some_names_ref-insert_marker target digest ((k, v) ∷ annotations) =
    elim (Bool-cases (restart_marker == k)) [
      | inl same ↦
          rw same (rw (← path_of_eq restart_marker k same) (ground (arith, marker_is_no_opt_in)))
      | inr differ ↦ rw differ (rw (some_names_ref-insert_marker target digest annotations))
    ]

-- The stamp does not change which environments a workload consumes, and a workload that has it
-- needs no second one for the same lock.
stamped_lem :
    (target : EnvRef) (digest : String) (w : Workload)
    → (refs_from_annotations (stamped digest w).template_annotations
        ≡ refs_from_annotations w.template_annotations)
      × (needs_stamp target digest (stamped digest w) ≡ false)
unfolding stamped needs_stamp
stamped_lem target digest w = (
  refs_from_annotations-eq _ _ (λ r. some_names_ref-insert_marker r digest w.template_annotations),
  ground (arith, lookup-insert restart_marker restart_marker digest w.template_annotations),
)

abbrev pub same_kind : WorkloadKind → WorkloadKind → Bool
same_kind deployment deployment = true
same_kind daemon_set daemon_set = true
same_kind stateful_set stateful_set = true
same_kind _ _ = false

abbrev pub same_workload : Workload → Workload → Bool
same_workload w x = same_kind w.kind x.kind && w.namespace == x.namespace && w.name == x.name

-- After a patch that succeeds the list has what was sent for the workload that was patched, and every
-- other workload as it was: nobody else writes meanwhile.
pub record IsPatching (c : Client) : Type 1 where
  pub list-patch :
      (s : c.State) (kind : WorkloadKind) (base sent stored : Workload) (ws : List Workload)
      → c.list_workloads s kind ≡ ok ws
      → (c.patch_workload s base sent).0 ≡ ok stored
      → (ws' : List Workload) × (c.list_workloads (c.patch_workload s base sent).1 kind ≡ ok ws')
        × ((P : Workload → Type 0)
            → All (λ x. same_workload x base ≡ false → P x) ws
            → P sent
            → All P ws')

-- A workload that consumes the environment has the stamp of the lock.
abbrev pub IsRolled : EnvRef → String → Workload → Type 0
IsRolled target digest w =
    contains (refs_from_annotations w.template_annotations) target ≡ true
    → (get w.template_annotations restart_marker == digest) ≡ true

IsRolled-needs_stamp :
    (target : EnvRef) (digest : String) (w : Workload)
    → needs_stamp target digest w ≡ false
    → IsRolled target digest w
unfolding needs_stamp
IsRolled-needs_stamp target digest w h consumes = ground (arith, h, consumes)

needs_stamp-IsRolled :
    (target : EnvRef) (digest : String) (w : Workload)
    → IsRolled target digest w
    → needs_stamp target digest w ≡ false
unfolding needs_stamp
needs_stamp-IsRolled target digest w h = ground (arith, h)

abbrev Listed : Workload → List Workload → Type 0
Listed x [] = ⊥
Listed x (w ∷ ws) = (x ≡ w) ⊎ Listed x ws

-- A workload is rolled, or is still to come.
abbrev Pending : EnvRef → String → List Workload → Workload → Type 0
Pending target digest todo x = IsRolled target digest x ⊎ Listed x todo

same_kind_refl : (k : WorkloadKind) → same_kind k k ≡ true
same_kind_refl deployment = refl
same_kind_refl daemon_set = refl
same_kind_refl stateful_set = refl

same_workload_refl : (w : Workload) → same_workload w w ≡ true
same_workload_refl w = ground (arith, same_kind_refl w.kind, eq_self w.namespace, eq_self w.name)

join_none : (e f : Option Error) → join_errors e f ≡ none → (e ≡ none) × (f ≡ none)
unfolding join_errors
join_none none f h = (refl, h)
join_none (some e) none h = cc
join_none (some e) (some f) h = cc

All-map :
    {P Q : Workload → Type 0} (ws : List Workload)
    → ((w : Workload) → P w → Q w)
    → All P ws
    → All Q ws
All-map [] f h = tt
All-map (w ∷ ws) f (here, there) = (f w here, All-map ws f there)

module _ (c : Client) (target : EnvRef) (digest : String) where
  stamp_consumers-IsRolled :
      (s : c.State) (ws : List Workload)
      → All (IsRolled target digest) ws
      → stamp_consumers c s ws target digest ≡ (none, s)
  unfolding stamp_consumers stamp_consumer join_errors
  stamp_consumers-IsRolled s [] h = refl
  stamp_consumers-IsRolled s (w ∷ ws) (here, there) =
      rw (
        needs_stamp-IsRolled target digest w here,
        stamp_consumers-IsRolled s ws there,
        join_errors,
      )

  -- One workload of the loop.
  Pending-stamp_consumer :
      (patching : IsPatching c) (kind : WorkloadKind) (s : c.State) (w : Workload)
      (todo cur : List Workload)
      → c.list_workloads s kind ≡ ok cur
      → All (Pending target digest (w ∷ todo)) cur
      → (stamp_consumer c s w target digest).0 ≡ none
      → (cur' : List Workload) × (c.list_workloads (stamp_consumer c s w target digest).1 kind
          ≡ ok cur')
        × All (Pending target digest todo) cur'
  unfolding stamp_consumer
  Pending-stamp_consumer patching kind s w todo cur listed h done =
      elim (Bool-cases (needs_stamp target digest w)) [
        | inr fresh ↦
            rw (fresh, stamp_consumer)
              (
                cur,
                listed,
                All-map cur
                    (λ x p. elim p [
                      | inl rolled ↦ inl rolled
                      | inr (inl same) ↦ inl (IsRolled-needs_stamp target digest x (rw same fresh))
                      | inr (inr later) ↦ inr later
                    ])
                    h,
              )
        | inl stale ↦ elim (Result-cases (c.patch_workload s w (stamped digest w)).0) [
          | inl (e, bad) ↦ cc (rw (stale, bad, stamp_consumer) at done)
          | inr (stored, good) ↦
              let (cur', after, keeps) =
                patching.list-patch s kind w (stamped digest w) stored cur listed good in
              rw (stale, stamp_consumer)
                (
                  cur',
                  after,
                  keeps (Pending target digest todo)
                      (All-map cur
                        (λ x p other. elim p [
                          | inl rolled ↦ inl rolled
                          | inr (inl same) ↦
                              let clash : true ≡ false =
                                sym (same_workload_refl w)
                                ∙ subst (λ x. same_workload x w ≡ false) same other in
                              cc
                          | inr (inr later) ↦ inr later
                        ])
                        h)
                      (inl (
                        IsRolled-needs_stamp target digest (stamped digest w)
                          (stamped_lem target digest w).1)),
                )
        ]
      ]

  Pending-stamp_consumers :
      (patching : IsPatching c) (kind : WorkloadKind) (s : c.State) (todo cur : List Workload)
      → c.list_workloads s kind ≡ ok cur
      → All (Pending target digest todo) cur
      → (stamp_consumers c s todo target digest).0 ≡ none
      → (cur' : List Workload) × (c.list_workloads (stamp_consumers c s todo target digest).1 kind
          ≡ ok cur')
        × All (IsRolled target digest) cur'
  unfolding stamp_consumers
  Pending-stamp_consumers patching kind s [] cur listed h done = (
    cur,
    listed,
    All-map cur (λ x p. elim p [ inl rolled ↦ rolled | inr never ↦ absurd never ]) h,
  )
  Pending-stamp_consumers patching kind s (w ∷ todo) cur listed h done =
      let (first, rest) = join_none (stamp_consumer c s w target digest).0 _ done in
      let (cur', listed', h') = Pending-stamp_consumer patching kind s w todo cur listed h first in
      Pending-stamp_consumers patching kind (stamp_consumer c s w target digest).1 todo cur' listed'
        h' rest

All-Listed :
    {P : Workload → Type 0} (ws : List Workload) → ((w : Workload) → Listed w ws → P w) → All P ws
All-Listed [] f = tt
All-Listed (w ∷ ws) f = (f w (inl refl), All-Listed ws (λ x l. f x (inr l)))

-- After a roll of a kind's workloads that reports no error, every workload of the kind that consumes
-- the environment has the stamp of the lock, and a second roll of the list for that lock patches
-- nothing and reports no error. Nobody else writes workloads meanwhile.
pub stamp_consumers_twice :
    (c : Client) (patching : IsPatching c) (s : c.State) (kind : WorkloadKind) (ws : List Workload)
    (target : EnvRef) (digest : String)
    → c.list_workloads s kind ≡ ok ws
    → (stamp_consumers c s ws target digest).0 ≡ none
    → let s' = (stamp_consumers c s ws target digest).1 in
      (ws' : List Workload) × (c.list_workloads s' kind ≡ ok ws')
      × All (IsRolled target digest) ws'
      × (stamp_consumers c s' ws' target digest ≡ (none, s'))
stamp_consumers_twice c patching s kind ws target digest listed done =
    let (ws', after, rolled) =
      Pending-stamp_consumers c target digest patching kind s ws ws listed
        (All-Listed ws (λ w l. inr l)) done in
    (ws', after, rolled, stamp_consumers-IsRolled c target digest _ ws' rolled)
