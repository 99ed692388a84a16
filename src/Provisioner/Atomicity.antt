-- ===== src/Provisioner/Atomicity.antt =====
-- The plugin's link of an environment through a realisation: it is swapped in one step, or kept.
use flox_controller.Prelude.{
  String, string_eq, true, false, none, some, ok, ◌≡◌, ◌≢◌, refl, ◌∙◌, sym, arith, ◌⊎◌, inl, inr,
  eq_self, path_of_eq,
}
use flox_controller.Action.{Action, Ends, Ends-bind, Ends-cases, Ends-mono, Ends-state}
use flox_controller.Action.Leaves.{Leaves, leaves_rules, Leaves-when}
use flox_controller.Host.{Host, link_at}
use flox_controller.Host.Laws.{IsPlain, KeepsLinks, beneath}
use flox_controller.Filepath.{dir}
use flox_controller.EnvController.Types.{EnvRef, RealizeRequest}
use flox_controller.Provisioner.{ExecProvisioner, gcroot_path, activation_gcroot_path}
use flox_controller.Provisioner.Roots.{write_gcroot}
use flox_controller.Provisioner.Subtree.{add_env_subtree, staging_of}
use flox_controller.Provisioner.Realize.{realize, flox_env_dir}
use flox_controller.Provisioner.Links.{
  link_of, write_sources-Leaves, build_env-Leaves, add_env_subtree-Leaves,
  containerize_and_import-Leaves,
}
use flox_controller.Provisioner.Names.{
  tmp_of, shadow, IsPlainRef, gcroot_path_inj, gcroot_path-shadow, shadow-IsPlainRef,
}
use flox_controller.Provisioner.Swap.{ne-tmp_of, write_gcroot-Ends}

-- A link that is under the GC-roots, is not staged, and is not the one of the activation, nor that
-- one's temporary name.
pub record IsApart (p : ExecProvisioner) (ref : EnvRef) (q : String) : Type 0 where
  pub inside : beneath q (dir p.gcroot_base) ≡ true
  pub unstaged : beneath q (staging_of p ref) ≡ false
  pub not_activation : q ≢ activation_gcroot_path p ref
  pub not_temporary : q ≢ tmp_of (activation_gcroot_path p ref)

module _ (h : Host) (plain : IsPlain h) where
  write_gcroot-Leaves :
      (gc target q : String)
      → q ≢ gc
      → q ≢ tmp_of gc
      → Leaves (link_of h q) (write_gcroot h gc target)
  write_gcroot-Leaves gc target q ni ne = record {
    at = λ s. Ends-state (
        Ends-mono (write_gcroot-Ends h plain gc target q s)
          (λ a s' written. ground (arith, written, ni, ne)) (λ s' untouched. untouched ne));
  }

module _ (h : Host) (plain : IsPlain h) (p : ExecProvisioner)
    (keeps : KeepsLinks h (dir p.gcroot_base)) (req : RealizeRequest) where
  -- The link of another environment is left as it is, if that one is not named as the temporary
  -- link of the environment is. The host is plain, its commands leave the GC-roots alone, the base
  -- of the GC-roots is not empty, both environments have names without a slash and folders that
  -- Clean keeps, and the other's GC-root is apart.
  pub realize-Leaves :
      (other : EnvRef)
      → p.gcroot_base ≢ ""
      → IsPlainRef req.ref
      → IsPlainRef other
      → other ≢ req.ref
      → other ≢ shadow req.ref
      → IsApart p req.ref (gcroot_path p other)
      → Leaves (link_of h (gcroot_path p other)) (realize h p req)
  unfolding realize
  realize-Leaves other based mine theirs differ unlike apart =
      let q = gcroot_path p other in
      let ni : q ≢ gcroot_path p req.ref =
        λ e. differ (gcroot_path_inj p based other req.ref theirs mine e) in
      let ne : q ≢ tmp_of (gcroot_path p req.ref) = λ e. unlike (
        gcroot_path_inj p based other (shadow req.ref) theirs (shadow-IsPlainRef req.ref mine)
          (e ∙ sym (gcroot_path-shadow p based req.ref mine))) in
      let own : (target : String)
          → Leaves (link_of h q) (write_gcroot h (gcroot_path p req.ref) target) =
        λ target. write_gcroot-Leaves h plain (gcroot_path p req.ref) target q ni ne in
      let activation : (target : String)
          → Leaves (link_of h q) (write_gcroot h (activation_gcroot_path p req.ref) target) =
        λ target.
          write_gcroot-Leaves h plain (activation_gcroot_path p req.ref) target q
            apart.not_activation apart.not_temporary in
      let staged : (flox_env : String)
          → Leaves (link_of h q) (add_env_subtree h p req.ref flox_env) =
        λ flox_env.
          add_env_subtree-Leaves h plain q _ keeps apart.inside p req.ref flox_env apart.unstaged in
      search
        (
          leaves_rules,
          write_sources-Leaves h plain q,
          build_env-Leaves h plain q _ keeps apart.inside,
          staged,
          own,
          activation,
          containerize_and_import-Leaves h plain q _ keeps apart.inside,
        )
        depth 20

module _ (h : Host) (plain : IsPlain h) (p : ExecProvisioner)
    (keeps : KeepsLinks h (dir p.gcroot_base)) (req : RealizeRequest)
    (apart : IsApart p req.ref (gcroot_path p req.ref)) where
  abbrev pub root : String
  root = gcroot_path p req.ref

  abbrev flox_env : String
  flox_env = flox_env_dir p req.ref

  -- A store path that adding the subtree of the environment gave.
  abbrev pub IsAdded : String → Type 0
  IsAdded path = (s : h.State) × ((add_env_subtree h p req.ref flox_env s).0 ≡ ok path)

  abbrev pub KeptOrAdded : h.State → h.State → Type 0
  KeptOrAdded s s' =
      (link_at h s' root ≡ link_at h s root)
      ⊎ ((path : String) × IsAdded path × (link_at h s' root ≡ some path))

  -- A step before the swap.
  before :
      {A : Type 0} (m : Action h.State A) (s s' : h.State)
      → Leaves (link_of h root) m
      → link_at h s' root ≡ link_at h s root
      → Ends
          (λ a s''. (link_at h s'' root ≡ link_at h s root) × ((m s').0 ≡ ok a))
          (KeptOrAdded s)
          (m s')
  before m s s' leaves kept =
      Ends-cases (m s') (λ a done. (leaves.at s' ∙ kept, done))
        (λ e failed. inl (leaves.at s' ∙ kept))

  -- A step after it.
  after :
      {A : Type 0} (m : Action h.State A) (s s' : h.State) (path : String)
      → IsAdded path
      → Leaves (link_of h root) m
      → link_at h s' root ≡ some path
      → Ends (λ a s''. link_at h s'' root ≡ some path) (KeptOrAdded s) (m s')
  after m s s' path added leaves linked =
      Ends-cases (m s') (λ a done. leaves.at s' ∙ linked)
        (λ e failed. inr (path, added, leaves.at s' ∙ linked))

  swap :
      (s s' : h.State) (path : String)
      → link_at h s' root ≡ link_at h s root
      → Ends (λ a s''. link_at h s'' root ≡ some path) (KeptOrAdded s) (write_gcroot h root path s')
  swap s s' path kept =
      Ends-mono (write_gcroot-Ends h plain root path root s')
        (λ a s'' written. ground (arith, written, eq_self root))
        (λ s'' untouched. inl (untouched (ne-tmp_of root) ∙ kept))

  -- However a realisation ends, the link that the plugin reads is the one of before, or leads to a
  -- store path that adding the environment's subtree gave; where it succeeds, the link leads to the
  -- store path that it returns. The host is plain, its commands leave the GC-roots alone, and
  -- the environment's GC-root is apart.
  pub realize-Ends :
      (s : h.State)
      → Ends
          (λ res s'.
            IsAdded res.store_path
            × (link_at h s' res.gcroot_path ≡ some res.store_path)
            × (res.gcroot_path ≡ root))
          (KeptOrAdded s)
          (realize h p req s)
  unfolding realize
  realize-Ends s =
      Ends-bind _ _ s (before _ s s (write_sources-Leaves h plain root p req) refl) λ _ s₁ k₁.
        Ends-bind _ _ s₁
          (before _ s s₁ (build_env-Leaves h plain root _ keeps apart.inside p _ _) k₁.0)
          λ activation s₂ k₂.
            Ends-bind _ _ s₂
              (before _ s s₂
                (add_env_subtree-Leaves h plain root _ keeps apart.inside p _ _ apart.unstaged)
                k₂.0)
              λ subtree s₃ k₃.
                let added : IsAdded subtree = (s₂, k₃.1) in
                Ends-bind _ _ s₃ (swap s s₃ subtree k₃.0) λ _ s₄ k₄.
                  Ends-bind _ _ s₄
                    (after _ s s₄ subtree added
                      (write_gcroot-Leaves h plain _ activation root apart.not_activation
                        apart.not_temporary)
                      k₄)
                    λ _ s₅ k₅.
                      Ends-bind _ _ s₅
                        (after _ s s₅ subtree added
                          (Leaves-when _ _
                            (containerize_and_import-Leaves h plain root _ keeps apart.inside p _))
                          k₅)
                        λ _ s₆ k₆. record { at = (added, k₆, refl) }

-- A write of a GC-root that succeeds takes the link from the environment that is named as the
-- temporary link is: an environment `web` takes it from `web.tmp` in the same folder. The host is
-- plain, the base of the GC-roots is not empty, the name has no slash and Clean keeps the folder.
pub write_gcroot-takes_shadow :
    (h : Host) (plain : IsPlain h) (p : ExecProvisioner) (ref : EnvRef) (target : String)
    (s : h.State)
    → p.gcroot_base ≢ ""
    → IsPlainRef ref
    → Ends
        (λ _ s'. link_at h s' (gcroot_path p (shadow ref)) ≡ none)
        (λ _. Unit {0})
        (write_gcroot h (gcroot_path p ref) target s)
write_gcroot-takes_shadow h plain p ref target s based mine =
    let root = gcroot_path p ref in
    rw (gcroot_path-shadow p based ref mine) (
      Ends-mono (write_gcroot-Ends h plain root target (tmp_of root) s)
        (λ a s' written.
          ground
            (arith, written, ne-tmp_of root, path_of_eq (tmp_of root) root, eq_self (tmp_of root)))
        (λ s' u. tt))
