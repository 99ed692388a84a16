-- ===== src/Provisioner/Selection.antt =====
-- The closure that is taken for the one that flox built.
use flox_controller.Prelude.{
  String, ◌<>◌, true, false, ◌==◌, string_eq, some, ok, err, Error, other, Result, ◌≡◌, ◌≢◌, refl,
  ap, sym, ◌∙◌, arith, List, [], ◌∷◌, Bool, Bool-cases, Option-cases, ◌⊎◌, inl, inr, has_suffix,
  contains, eq_self, path_of_eq, has_prefix, strip_prefix, none,
}
use flox_controller.Action.{reads, Ends, Ends-bind, Ends-cases, Ends-in_context}
use flox_controller.Host.{Host}
use flox_controller.Filepath.{join_path}
use flox_controller.Provisioner.{ExecProvisioner}
use flox_controller.Provisioner.Build.{
  store_target, pick, or_error, build_env, activate_command, run_flox,
}

module _ (read : String → Result String) (mode : String) where
  abbrev has_mode : String → Bool
  has_mode name = has_suffix name ("-" <> mode)

  -- One of the names that is not hidden leads to the target, which is in the store.
  pub record Leads (names : List String) (name target : String) : Type 0 where
    pub listed : contains names name ≡ true
    pub visible : has_prefix name "." ≡ false
    pub link : read name ≡ ok target
    pub stored : has_prefix target "/nix/store/" ≡ true

  store_target_parts :
      (r : Result String) (name target : String)
      → store_target r name ≡ some target
      → (has_prefix name "." ≡ false) × (r ≡ ok target) × (has_prefix target "/nix/store/" ≡ true)
  unfolding store_target
  store_target_parts (err e) name target h = cc
  store_target_parts (ok t) name target h = elim (Bool-cases (has_prefix name ".")) [
    | inl hidden ↦ cc (rw hidden at h)
    | inr shown ↦ elim (Bool-cases (has_prefix t "/nix/store/")) [
      | inl inside ↦
          let same : some t ≡ some target = rw (shown, inside) at h in
          let path : t ≡ target = cc in (shown, ap ok path, rw path at inside)
      | inr outside ↦ cc (rw (shown, outside) at h)
    ]
  ]

  Leads-contains :
      (names : List String) (name target : String)
      → contains names name ≡ true
      → store_target (read name) name ≡ some target
      → Leads names name target
  Leads-contains names name target listed to =
      let (visible, link, stored) = store_target_parts (read name) name target to in
      record { listed = listed; visible = visible; link = link; stored = stored }

  Leads-store_target :
      (names : List String) (name target : String)
      → Leads names name target
      → store_target (read name) name ≡ some target
  unfolding store_target
  Leads-store_target names name target l =
      let visible = l.visible in
      let stored = l.stored in rw (l.link, store_target) (rw (visible, stored) refl)

  -- No name that leads into the store is of the mode.
  abbrev NoneOfMode : List String → Type 0
  NoneOfMode names = (name target : String) → Leads names name target → has_mode name ≡ false

  -- The target of a name of the mode, or of any name where none is of the mode.
  abbrev pub Chosen : List String → String → Type 0
  Chosen names target =
      (name : String) × Leads names name target × ((has_mode name ≡ true) ⊎ NoneOfMode names)

  Leads-cons :
      (n : String) (names : List String) (name target : String)
      → Leads names name target
      → Leads (n ∷ names) name target
  Leads-cons n names name target l =
      Leads-contains (n ∷ names) name target (ground (arith, l.listed))
        (Leads-store_target names name target l)

  NoneOfMode-cons :
      (n : String) (names : List String)
      → ((target : String) → store_target (read n) n ≡ some target → has_mode n ≡ false)
      → NoneOfMode names
      → NoneOfMode (n ∷ names)
  NoneOfMode-cons n names here there = λ name target l. elim (Bool-cases (name == n)) [
    | inl same ↦
        let path = path_of_eq name n same in
        let to = Leads-store_target (n ∷ names) name target l in
        rw path (here target (rw path at to))
    | inr differ ↦ there name target (
        Leads-contains names name target (ground (arith, l.listed, differ))
          (Leads-store_target (n ∷ names) name target l))
  ]

  -- What the loop returns, from a target that it fell back on.
  Chosen-pick_from :
      (names : List String) (fallback target : String)
      → pick read mode names fallback ≡ some target
      → ((name : String) × Leads names name target × (has_mode name ≡ true))
        ⊎ (NoneOfMode names
            × (((name : String) × Leads names name target)
                ⊎ ((target ≡ fallback) × (fallback ≢ ""))))
  unfolding pick
  Chosen-pick_from [] fallback target h =
      inr (λ name other l. (let bad = l.listed in cc), inr (ground (arith, h)))
  Chosen-pick_from (n ∷ names) fallback target h = elim (Option-cases (store_target (read n) n)) [
    | inl skipped ↦ elim (Chosen-pick_from names fallback target (rw (skipped, pick) at h)) [
      | inl (name, l, m) ↦ inl (name, Leads-cons n names name target l, m)
      | inr (unmatched, rest) ↦ inr (
        NoneOfMode-cons n names (λ t e. cc) unmatched,
        elim rest [
          | inl (name, l) ↦ inl (name, Leads-cons n names name target l)
          | inr old ↦ inr old
        ],
      )
    ]
    | inr (found, e) ↦
        let here : Leads (n ∷ names) n found =
          Leads-contains (n ∷ names) n found (ground (arith, eq_self n)) e in
        elim (Bool-cases (has_mode n)) [
          | inl moded ↦
              let same : some found ≡ some target = rw (e, moded, pick) at h in
              let to : store_target (read n) n ≡ some target = e ∙ same in
              inl (n, Leads-contains (n ∷ names) n target here.listed to, moded)
          | inr unmoded ↦ elim (Chosen-pick_from names found target (rw (e, unmoded, pick) at h)) [
            | inl (name, l, m) ↦ inl (name, Leads-cons n names name target l, m)
            | inr (unmatched, rest) ↦ inr (
              NoneOfMode-cons n names (λ t here. unmoded) unmatched,
              elim rest [
                | inl (name, l) ↦ inl (name, Leads-cons n names name target l)
                | inr old ↦
                    inl
                      (n, Leads-contains (n ∷ names) n target here.listed (e ∙ ap some (sym old.0)))
              ],
            )
          ]
        ]
  ]

  Chosen-pick :
      (names : List String) (target : String)
      → pick read mode names "" ≡ some target
      → Chosen names target
  Chosen-pick names target h = elim (Chosen-pick_from names "" target h) [
    | inl (name, l, m) ↦ (name, l, inl m)
    | inr (unmatched, inl (name, l)) ↦ (name, l, inr unmatched)
    | inr (unmatched, inr (same, bad)) ↦ absurd (bad refl)
  ]

  Chosen-or_error :
      (e : Error) (names : List String) (target : String)
      → or_error e (pick read mode names "") ≡ ok target
      → Chosen names target
  Chosen-or_error e names target h = elim (Option-cases (pick read mode names "")) [
    | inl nothing ↦ let bad : err e ≡ ok target = rw nothing at h in cc
    | inr (t, found) ↦
        let same : ok t ≡ ok target = rw found at h in Chosen-pick names target (found ∙ (cc))
  ]

  empty_outside : has_prefix "" "/nix/store/" ≡ false
  unfolding has_prefix strip_prefix
  empty_outside = refl

  stored-ne-empty : (r : Result String) (name : String) → store_target r name ≢ some ""
  unfolding store_target
  stored-ne-empty (err e) name h = cc
  stored-ne-empty (ok target) name h =
      let parts : (has_prefix target "/nix/store/" ≡ true) × (target ≡ "") = ground (arith, h) in
      let (inside, empty) = parts in
      let bad : true ≡ false =
        sym inside ∙ ap (λ (t : String). has_prefix t "/nix/store/") empty ∙ empty_outside in
      cc

  -- No name leads into the store.
  abbrev pub NoneLeads : List String → Type 0
  NoneLeads names = (name target : String) → Leads names name target → ⊥

  NoneLeads-pick :
      (names : List String) (fallback : String)
      → pick read mode names fallback ≡ none
      → (fallback ≡ "") × NoneLeads names
  unfolding pick
  NoneLeads-pick [] fallback h = (ground (arith, h), λ name target l. (let bad = l.listed in cc))
  NoneLeads-pick (n ∷ names) fallback h = elim (Option-cases (store_target (read n) n)) [
    | inl skipped ↦
        let (empty, nothing) = NoneLeads-pick names fallback (rw (skipped, pick) at h) in
        (
          empty,
          λ name target l. elim (Bool-cases (name == n)) [
            | inl same ↦
                let path = path_of_eq name n same in
                let to = Leads-store_target (n ∷ names) name target l in
                let bad : none ≡ some target = sym skipped ∙ (rw path at to) in cc
            | inr differ ↦ nothing name target (
                Leads-contains names name target (ground (arith, l.listed, differ))
                  (Leads-store_target (n ∷ names) name target l))
          ],
        )
    | inr (found, e) ↦ elim (Bool-cases (has_mode n)) [
      | inl moded ↦ cc (rw (e, moded, pick) at h)
      | inr unmoded ↦
          let (empty, nothing) = NoneLeads-pick names found (rw (e, unmoded, pick) at h) in
          absurd (stored-ne-empty (read n) n (e ∙ ap some empty))
    ]
  ]

  pub NoneLeads-or_error :
      (e f : Error) (names : List String)
      → or_error e (pick read mode names "") ≡ err f
      → NoneLeads names
  NoneLeads-or_error e f names h = elim (Option-cases (pick read mode names "")) [
    | inl nothing ↦ (NoneLeads-pick names "" nothing).1
    | inr (t, found) ↦ let bad : ok t ≡ err f = rw found at h in cc
  ]

abbrev pub run_dir : String → String
run_dir dir = join_path (dir ∷ ".flox" ∷ "run" ∷ [])

module _ (h : Host) (p : ExecProvisioner) (dir mode : String) where
  abbrev pub read_run : h.State → String → Result String
  read_run s name = h.readlink s (join_path (run_dir dir ∷ name ∷ []))

  -- The activation failed, the run directory could not be read, or nothing in it leads into the
  -- store.
  abbrev pub NotBuilt : h.State → h.State → Type 0
  NotBuilt s s' =
      ((e : Error) × ((run_flox h (activate_command p dir mode) s).0 ≡ err e))
      ⊎ ((e : Error) × (h.read_dir s' (run_dir dir) ≡ err e))
      ⊎ ((names : List String) × (h.read_dir s' (run_dir dir) ≡ ok names)
          × NoneLeads (read_run s') mode names)

  -- The path that a build returns is the target of a visible link into the store in the run
  -- directory, as the directory stood after the activation: of one of the mode, or, where no such
  -- link is of the mode, of any. A build fails only where the activation failed, the directory could
  -- not be read, or it has no such link.
  pub build_env-Ends :
      (s : h.State)
      → Ends
          (λ target s'.
            (names : List String) × (h.read_dir s' (run_dir dir) ≡ ok names)
            × Chosen (read_run s') mode names target)
          (NotBuilt s)
          (build_env h p dir mode s)
  unfolding build_env
  build_env-Ends s =
      Ends-bind {P = λ _ _. Unit {0}} _ _ s
        (Ends-in_context _ _ s
          (Ends-cases (run_flox h (activate_command p dir mode) s) (λ a d. tt) (λ e f. inl (e, f))))
        λ _ s₁ u.
          Ends-bind {P = λ names s'. h.read_dir s' (run_dir dir) ≡ ok names} _ _ s₁
            (Ends-in_context _ _ s₁ (
              Ends-cases (reads (λ s. h.read_dir s (run_dir dir)) s₁) (λ names d. d)
                (λ e f. inr (inl (e, f)))))
            λ names s₂ listed.
              let none_found = other ("no /nix/store env path under " <> run_dir dir) in
              Ends-cases (reads (λ s. or_error none_found (pick (read_run s) mode names "")) s₂)
                (λ target d.
                  (names, listed, Chosen-or_error (read_run s₂) mode none_found names target d))
                (λ e f.
                  inr (
                    inr
                      (names, listed, NoneLeads-or_error (read_run s₂) mode none_found e names f)))
