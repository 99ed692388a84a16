-- ===== src/Provisioner/Swap.antt =====
-- The links of the GC-roots through a write of one of them: it is swapped in one step, or kept.
use flox_controller.Prelude.{
  String, ◌==◌, string_eq, if◌then◌else◌, Option, none, some, ok, ◌≡◌, ◌≢◌, ◌∙◌, sym, arith,
}
use text.Mathlib.TextLemmas.{cons-append, nil-append}
use flox_controller.Action.{ignoring_error, Ends, Ends-bind, Ends-in_context, Ends-cases}
use flox_controller.Host.{Host, link_at}
use flox_controller.Host.Laws.{IsPlain}
use flox_controller.Filepath.{dir}
use flox_controller.Provisioner.Names.{tmp_of}
use flox_controller.Provisioner.Roots.{write_gcroot}
use flox_controller.Provisioner.Links.{mkdir_all-Leaves}

pub ne-tmp_of : (s : String) → s ≢ tmp_of s
ne-tmp_of String.[] e = cc (rw nil-append at e)
ne-tmp_of (String.◌∷◌ c s) e = ne-tmp_of s (cc (rw cons-append at e))

module _ (h : Host) (plain : IsPlain h) (gc target q : String) where
  -- What is left of the link at `q` where the write fails.
  abbrev Untouched : h.State → h.State → Type 0
  Untouched s s' = q ≢ tmp_of gc → link_at h s' q ≡ link_at h s q

  abbrev written : h.State → Option String
  written s = if q == gc then some target else if q == tmp_of gc then none else link_at h s q

  mkdir-Ends : (s : h.State) → Ends (λ _. Untouched s) (Untouched s) (h.mkdir_all (dir gc) s)
  mkdir-Ends s =
      let kept : Untouched s (h.mkdir_all (dir gc) s).1 =
        λ ne. (mkdir_all-Leaves h plain q (dir gc)).at s in
      Ends-cases (h.mkdir_all (dir gc) s) (λ a done. kept) (λ e failed. kept)

  remove-Ends :
      (s₀ s : h.State)
      → Untouched s₀ s
      → Ends (λ _. Untouched s₀) (Untouched s₀) (ignoring_error (h.remove (tmp_of gc)) s)
  unfolding ignoring_error
  remove-Ends s₀ s kept = record { at = λ ne. plain.link-remove s (tmp_of gc) q ne ∙ kept ne }

  symlink-Ends :
      (s₀ s : h.State)
      → Untouched s₀ s
      → Ends
          (λ _ s'. Untouched s₀ s' × (link_at h s' (tmp_of gc) ≡ some target))
          (Untouched s₀)
          (h.symlink target (tmp_of gc) s)
  symlink-Ends s₀ s kept =
      let after : Untouched s₀ (h.symlink target (tmp_of gc) s).1 =
        λ ne. plain.link-symlink s target (tmp_of gc) q ne ∙ kept ne in
      Ends-cases (h.symlink target (tmp_of gc) s)
        (λ a done. (after, plain.link-symlink_self s target (tmp_of gc) done)) (λ e failed. after)

  renamed :
      (s₀ s : h.State)
      → Untouched s₀ s
      → link_at h s (tmp_of gc) ≡ some target
      → (h.rename (tmp_of gc) gc s).0 ≡ ok tt
      → link_at h (h.rename (tmp_of gc) gc s).1 q ≡ written s₀
  renamed s₀ s kept linked done =
      let apart : tmp_of gc ≢ gc = λ e. ne-tmp_of gc (sym e) in
      let others : q ≢ tmp_of gc
          → q ≢ gc
          → link_at h (h.rename (tmp_of gc) gc s).1 q ≡ link_at h s q =
        λ ne ni. plain.link-rename s (tmp_of gc) gc q target ne ni linked in
      ground (
        arith,
        plain.link-rename_new s (tmp_of gc) gc target linked done,
        plain.link-rename_old s (tmp_of gc) gc target apart linked done,
        others,
        kept,
      )

  rename-Ends :
      (s₀ s : h.State)
      → Untouched s₀ s
      → link_at h s (tmp_of gc) ≡ some target
      → Ends (λ _ s'. link_at h s' q ≡ written s₀) (Untouched s₀) (h.rename (tmp_of gc) gc s)
  rename-Ends s₀ s kept linked =
      Ends-cases (h.rename (tmp_of gc) gc s) (λ a done. renamed s₀ s kept linked done)
        (λ e failed. λ ne. plain.link-rename_failed s (tmp_of gc) gc q (λ good. cc) ∙ kept ne)

  pub write_gcroot-Ends :
      (s : h.State)
      → Ends (λ _ s'. link_at h s' q ≡ written s) (Untouched s) (write_gcroot h gc target s)
  unfolding write_gcroot
  write_gcroot-Ends s = Ends-bind _ _ s (Ends-in_context _ _ s (mkdir-Ends s)) λ _ s₁ kept₁.
      Ends-bind _ _ s₁ (remove-Ends s s₁ kept₁) λ _ s₂ kept₂.
        Ends-bind _ _ s₂ (Ends-in_context _ _ s₂ (symlink-Ends s s₂ kept₂))
          λ _ s₃ linked. Ends-in_context _ _ s₃ (rename-Ends s s₃ linked.0 linked.1)
