-- ===== src/Webhook/Store.antt =====
-- The claims of the nix-build stores: what a refusal of the webhook comes from.
use flox_controller.Prelude.{
  String, ◌<>◌, Bool, true, false, ◌||◌, some, List, [], ◌∷◌, ◌==◌, string_eq, contains, is_nil,
  ◌≡◌, arith, Bool-cases, Option-cases, inl, inr, ap, subst, eq_self, Error, err, Result-cases,
  is_already_exists, wrap, ◌⊎◌, ◌∙◌,
}
use flox_controller.Prelude.Dict.{Dict}
use flox_controller.Core.{Pod}
use flox_controller.Webhook.{
  PodFloxMutator, nix_build_targets, add_volume, ensure_nix_store_pvc, ensure_volumes,
  inject_nix_build, nix_store_claim, claim_size,
}

-- Some target asks for the claim.
abbrev pub asks_for : String → Dict String String → Bool
asks_for claim [] = false
asks_for claim ((container, name) ∷ targets) = claim == name || asks_for claim targets

pair_eq : {A B : Type 0} (p : A × B) {a : A} → p.0 ≡ a → p ≡ (a, p.1)
pair_eq p e = ap (λ a. (a, p.1)) e

module _ (i : PodFloxMutator) where
  open i use {client}

  -- The state after the creation of some claims of the namespace, one after the other.
  pub data Created (namespace : String) : client.State → client.State → Type 0 where
    unchanged : {s : client.State} → Created namespace s s
    created :
        {s s' : client.State} (name : String)
        → Created namespace (client.create_claim s (nix_store_claim i namespace name)).1 s'
        → Created namespace s s'

  -- The creation of the claim failed in the state, with the error and the state that follow.
  pub record RefusedBy (namespace name : String) (s : client.State) (e : Error) (s' : client.State)
      : Type 0 where
    pub cause : Error
    pub failed : client.create_claim s (nix_store_claim i namespace name) ≡ (err cause, s')
    pub not_there : is_already_exists cause ≡ false
    pub wrapped : e ≡ wrap ("ensure nix-store PVC " <> (namespace <> ("/" <> name))) cause

  -- How the creation of claims ends in an error.
  abbrev pub Refused : String → Dict String String → client.State → Error → client.State → Type 0
  Refused namespace targets s e s' =
      (i.must_parse (claim_size i) ≡ some e)
      ⊎ ((name : String) × (before : client.State) × Created namespace s before
          × RefusedBy namespace name before e s'
          × (asks_for name targets ≡ true))

  ensure_nix_store_pvc_failed :
      (s : client.State) (namespace name : String) (e : Error)
      → (ensure_nix_store_pvc i s namespace name).0 ≡ some e
      → (i.must_parse (claim_size i) ≡ some e)
        ⊎ RefusedBy namespace name s e (ensure_nix_store_pvc i s namespace name).1
  unfolding ensure_nix_store_pvc
  ensure_nix_store_pvc_failed s namespace name e failed = elim (Bool-cases i.has_client) [
    | inr none_there ↦ cc (rw (none_there, ensure_nix_store_pvc) at failed)
    | inl there ↦ elim (Option-cases (i.must_parse (claim_size i))) [
      | inr (panic, bad) ↦
          let same : some panic ≡ some e = rw (there, bad, ensure_nix_store_pvc) at failed in
          inl (bad ∙ same)
      | inl parsed ↦
          elim (Result-cases (client.create_claim s (nix_store_claim i namespace name)).0) [
            | inr (made, good) ↦ cc (rw (there, parsed, good, ensure_nix_store_pvc) at failed)
            | inl (cause, bad) ↦ elim (Bool-cases (is_already_exists cause)) [
              | inl present ↦ cc (rw (there, parsed, bad, present, ensure_nix_store_pvc) at failed)
              | inr other ↦
                  let same : some
                        (wrap ("ensure nix-store PVC " <> (namespace <> ("/" <> name))) cause)
                      ≡ some e =
                    rw (there, parsed, bad, other, ensure_nix_store_pvc) at failed in
                  rw (there, parsed, bad, other, ensure_nix_store_pvc)
                    (inr (record {
                      cause = cause;
                      failed = pair_eq _ bad;
                      not_there = other;
                      wrapped = cc;
                    }))
            ]
          ]
    ]
  ]

  add_volume-namespace :
      (pod : Pod) (claim : String) → (add_volume pod claim).namespace ≡ pod.namespace
  unfolding add_volume
  add_volume-namespace pod claim = ground arith

  ensure_nix_store_pvc_state :
      (s : client.State) (namespace name : String)
      → ((ensure_nix_store_pvc i s namespace name).1 ≡ s)
        ⊎ ((ensure_nix_store_pvc i s namespace name).1
            ≡ (client.create_claim s (nix_store_claim i namespace name)).1)
  unfolding ensure_nix_store_pvc
  ensure_nix_store_pvc_state s namespace name = ground arith

  Created-ensure_nix_store_pvc :
      (s s' : client.State) (namespace name : String)
      → Created namespace (ensure_nix_store_pvc i s namespace name).1 s'
      → Created namespace s s'
  Created-ensure_nix_store_pvc s s' namespace name later =
      elim (ensure_nix_store_pvc_state s namespace name) [
        | inl same ↦ subst (λ s. Created namespace s s') same later
        | inr next ↦ created name (subst (λ s. Created namespace s s') next later)
      ]

  -- A refusal for the claims that are left, after the first of them.
  Refused-later :
      (namespace container claim : String) (targets : Dict String String) (s s' : client.State)
      (e : Error)
      → Refused namespace targets (ensure_nix_store_pvc i s namespace claim).1 e s'
      → Refused namespace ((container, claim) ∷ targets) s e s'
  Refused-later namespace container claim targets s s' e (inl panic) = inl panic
  Refused-later namespace container claim targets s s' e (inr (name, before, made, bad, asked)) =
      inr (
        name,
        before,
        Created-ensure_nix_store_pvc s before namespace claim made,
        bad,
        ground arith,
      )

  Refused-skip :
      (namespace container claim : String) (targets : Dict String String) (s s' : client.State)
      (e : Error)
      → Refused namespace targets s e s'
      → Refused namespace ((container, claim) ∷ targets) s e s'
  Refused-skip namespace container claim targets s s' e (inl panic) = inl panic
  Refused-skip namespace container claim targets s s' e (inr (name, before, made, bad, asked)) =
      inr (name, before, made, bad, ground arith)

  Refused-here :
      (namespace container claim : String) (targets : Dict String String) (s s' : client.State)
      (e : Error)
      → (i.must_parse (claim_size i) ≡ some e) ⊎ RefusedBy namespace claim s e s'
      → Refused namespace ((container, claim) ∷ targets) s e s'
  Refused-here namespace container claim targets s s' e (inl panic) = inl panic
  Refused-here namespace container claim targets s s' e (inr bad) =
      inr (claim, s, unchanged, bad, ground (arith, eq_self claim))

  ensure_volumes_failed :
      (s : client.State) (pod : Pod) (targets : Dict String String) (ensured : List String)
      (e : Error)
      → (ensure_volumes i s pod targets ensured).0 ≡ some e
      → Refused pod.namespace targets s e (ensure_volumes i s pod targets ensured).2
  unfolding ensure_volumes
  ensure_volumes_failed s pod [] ensured e failed = cc
  ensure_volumes_failed s pod ((container, claim) ∷ targets) ensured e failed =
      elim (Bool-cases (contains ensured claim)) [
        | inl again ↦
            rw (again, ensure_volumes)
              (Refused-skip pod.namespace container claim targets s _ e (
                ensure_volumes_failed s pod targets ensured e
                  (rw (again, ensure_volumes) at failed)))
        | inr new ↦ elim (Option-cases (ensure_nix_store_pvc i s pod.namespace claim).0) [
          | inl made ↦
              let later =
                ensure_volumes_failed (ensure_nix_store_pvc i s pod.namespace claim).1
                  (add_volume pod claim) targets (claim ∷ ensured) e
                  (rw (new, made, ensure_volumes) at failed) in
              rw (new, made, ensure_volumes)
                (Refused-later pod.namespace container claim targets s _ e (
                  subst
                    (λ ns.
                      Refused ns targets (ensure_nix_store_pvc i s pod.namespace claim).1 e
                        (ensure_volumes i (ensure_nix_store_pvc i s pod.namespace claim).1
                          (add_volume pod claim) targets (claim ∷ ensured)).2)
                    (add_volume-namespace pod claim) later))
          | inr (e', failed') ↦
              let same : some e' ≡ some e = rw (new, failed', ensure_volumes) at failed in
              rw (new, failed', ensure_volumes)
                (Refused-here pod.namespace container claim targets s _ e
                  (ensure_nix_store_pvc_failed s pod.namespace claim e (failed' ∙ same)))
        ]
      ]

  -- The webhook refuses a pod only if the size of the flag is no quantity, or if, after the claims
  -- that came before, the creation of one that an annotation asks for failed, for another reason than
  -- that the claim exists. The error is then that of the parsing, or wraps that of the creation.
  pub inject_nix_build_failed :
      (s : client.State) (pod : Pod) (e : Error)
      → (inject_nix_build i s pod).0 ≡ some e
      → Refused pod.namespace (nix_build_targets pod.annotations) s e (inject_nix_build i s pod).2
  unfolding inject_nix_build
  inject_nix_build_failed s pod e failed =
      let targets = nix_build_targets pod.annotations in
      elim (Bool-cases (is_nil targets)) [
        | inl empty ↦ cc (rw (empty, inject_nix_build) at failed)
        | inr full ↦ elim (Option-cases (ensure_volumes i s pod targets []).0) [
          | inl made ↦ cc (rw (full, made, inject_nix_build) at failed)
          | inr (e', failed') ↦
              let same : some e' ≡ some e = rw (full, failed', inject_nix_build) at failed in
              rw (full, failed', inject_nix_build)
                (ensure_volumes_failed s pod targets [] e (failed' ∙ same))
        ]
      ]
