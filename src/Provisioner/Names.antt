-- ===== src/Provisioner/Names.antt =====
-- The paths of the GC-roots: which environments they tell apart.
use text.Mathlib.TextLemmas.{cons-append, nil-append, append_assoc, append_cancel_left}
use flox_controller.Prelude.{
  String, ◌<>◌, true, List, [], ◌∷◌, ◌++◌, string_eq, nat_eq, join, ◌≡◌, ◌≢◌, refl, ap, sym, ◌∙◌,
  arith,
}
use flox_controller.Filepath.{elements}
use flox_controller.Filepath.Plain.{
  is_plain, is_kept, elements-append, elements-append_whole, join-elements, prefix_of,
  join_path-kept_pair,
}
use flox_controller.EnvController.Types.{EnvRef}
use flox_controller.Provisioner.{ExecProvisioner, gcroot_path}

abbrev pub tmp_of : String → String
tmp_of path = path <> ".tmp"

-- A folder of elements that Clean keeps, and a name that is one of them.
pub record IsPlainRef (ref : EnvRef) : Type 0 where
  pub folder : is_kept ref.folder ≡ true
  pub name : is_plain ref.name ≡ true
  pub name_whole : elements ref.name ≡ ref.name ∷ []

snoc_inj :
    (xs ys : List String) (x y : String) → xs ++ (x ∷ []) ≡ ys ++ (y ∷ []) → (xs ≡ ys) × (x ≡ y)
snoc_inj [] [] x y h = ground (arith, h)
snoc_inj [] (b ∷ []) x y h = cc
snoc_inj [] (b ∷ c ∷ ys) x y h = cc
snoc_inj (a ∷ []) [] x y h = cc
snoc_inj (a ∷ b ∷ xs) [] x y h = cc
snoc_inj (a ∷ xs) (b ∷ ys) x y h = ground (arith, h, snoc_inj xs ys x y)

whole_kept :
    (name : String) → is_plain name ≡ true → elements name ≡ name ∷ [] → is_kept name ≡ true
whole_kept name h e = rw (e, h) refl

module _ (p : ExecProvisioner) (based : p.gcroot_base ≢ "") where
  pub gcroot_path-plain :
      (ref : EnvRef)
      → IsPlainRef ref
      → gcroot_path p ref ≡ prefix_of p.gcroot_base <> (ref.folder <> ("/" <> ref.name))
  unfolding gcroot_path
  gcroot_path-plain ref plain =
      join_path-kept_pair p.gcroot_base ref.folder ref.name based plain.folder
        (whole_kept ref.name plain.name plain.name_whole)

  elements-ref :
      (ref : EnvRef)
      → IsPlainRef ref
      → elements (ref.folder <> ("/" <> ref.name)) ≡ elements ref.folder ++ (ref.name ∷ [])
  elements-ref ref plain =
      elements-append ref.folder ref.name
      ∙ ap (λ (es : List String). elements ref.folder ++ es) plain.name_whole

  -- Two environments with the same GC-root are the same.
  pub gcroot_path_inj :
      (a b : EnvRef) → IsPlainRef a → IsPlainRef b → gcroot_path p a ≡ gcroot_path p b → a ≡ b
  gcroot_path_inj a b ha hb h =
      let paths =
        append_cancel_left (prefix_of p.gcroot_base) (a.folder <> ("/" <> a.name))
          (b.folder <> ("/" <> b.name))
          (sym (gcroot_path-plain a ha) ∙ h ∙ gcroot_path-plain b hb) in
      let (folders, names) =
        snoc_inj (elements a.folder) (elements b.folder) a.name b.name
          (sym (elements-ref a ha) ∙ ap elements paths ∙ elements-ref b hb) in
      let same : a.folder ≡ b.folder =
        sym (join-elements a.folder)
        ∙ ap (λ (es : List String). join es "/") folders
        ∙ join-elements b.folder in
      ground (arith, same, names)

tmp-ne-empty : (s : String) → tmp_of s ≢ ""
tmp-ne-empty String.[] e = cc (rw nil-append at e)
tmp-ne-empty (String.◌∷◌ c s) e = cc (rw cons-append at e)

tmp-ne-dot : (s : String) → tmp_of s ≢ "."
tmp-ne-dot String.[] e = cc (rw nil-append at e)
tmp-ne-dot (String.◌∷◌ c s) e =
    let tail : tmp_of s ≡ "" = cc (rw cons-append at e) in absurd (tmp-ne-empty s tail)

tmp-ne-dots : (s : String) → tmp_of s ≢ ".."
tmp-ne-dots String.[] e = cc (rw nil-append at e)
tmp-ne-dots (String.◌∷◌ c s) e =
    let tail : tmp_of s ≡ "." = cc (rw cons-append at e) in absurd (tmp-ne-dot s tail)

-- The environment whose name is the temporary one of another's link.
abbrev pub shadow : EnvRef → EnvRef
shadow ref = record ref { name = tmp_of ref.name }

tmp_whole : elements ".tmp" ≡ ".tmp" ∷ []
unfolding elements nat_eq
tmp_whole = refl

pub shadow-IsPlainRef : (ref : EnvRef) → IsPlainRef ref → IsPlainRef (shadow ref)
shadow-IsPlainRef ref plain = record {
  folder = plain.folder;
  name = ground (arith, tmp-ne-empty ref.name, tmp-ne-dot ref.name, tmp-ne-dots ref.name);
  name_whole = elements-append_whole ref.name ".tmp" plain.name_whole tmp_whole;
}

module _ (p : ExecProvisioner) (based : p.gcroot_base ≢ "") where
  pub gcroot_path-shadow :
      (ref : EnvRef) → IsPlainRef ref → gcroot_path p (shadow ref) ≡ tmp_of (gcroot_path p ref)
  gcroot_path-shadow ref plain =
      rw
        (
          gcroot_path-plain p based (shadow ref) (shadow-IsPlainRef ref plain),
          gcroot_path-plain p based ref plain,
          append_assoc (prefix_of p.gcroot_base) (ref.folder <> ("/" <> ref.name)) ".tmp",
          append_assoc ref.folder ("/" <> ref.name) ".tmp",
          append_assoc "/" ref.name ".tmp",
        )
        refl
