-- ===== src/Floxenv/Refs.antt =====
-- What RefsFromAnnotations returns: the references of the annotations, each once and in order, so
-- that the order in which Go walks the map does not show.
use flox_controller.Prelude.{
  String, Bool, true, false, ◌&&◌, ◌||◌, not, List, [], ◌∷◌, Eq, ◌==◌, string_eq, contains,
  has_prefix, ◌≡◌, refl, sym, ◌∙◌, arith, inl, inr, Bool-cases,
}
use flox_controller.Prelude.Dict.{Dict}
use flox_controller.Floxenv.{
  EnvRef, ref_eq, parse_ref, collect_refs, refs_from_annotations, annotation_prefix,
}
use flox_controller.Floxenv.Sorting.{
  contains-sort_refs, IsSorted, IsDistinct, sort_refs-IsSorted, IsSorted-ext,
}

-- The annotation opts a container into the environment `r`.
abbrev pub names_ref : EnvRef → String → String → Bool
names_ref r k v = has_prefix k annotation_prefix && not (v == "") && r == parse_ref v

-- Some annotation does.
abbrev pub some_names_ref : EnvRef → Dict String String → Bool
some_names_ref r [] = false
some_names_ref r ((k, v) ∷ annotations) = names_ref r k v || some_names_ref r annotations

contains-collect_refs :
    (annotations : Dict String String) (seen : List EnvRef) (r : EnvRef)
    → contains (collect_refs annotations seen) r ≡ (some_names_ref r annotations || contains seen r)
unfolding collect_refs
contains-collect_refs [] seen r = refl
contains-collect_refs ((k, v) ∷ annotations) seen r =
    rw (contains-collect_refs annotations) (ground arith)

-- The result lists a reference exactly when an annotation with the prefix and a non-empty value
-- stands for it.
pub contains-refs_from_annotations :
    (annotations : Dict String String) (r : EnvRef)
    → contains (refs_from_annotations annotations) r ≡ some_names_ref r annotations
unfolding refs_from_annotations
contains-refs_from_annotations annotations r = ground (
  arith,
  contains-sort_refs (collect_refs annotations []) r,
  contains-collect_refs annotations [] r,
)

collect_refs-IsDistinct :
    (annotations : Dict String String) (seen : List EnvRef)
    → IsDistinct seen
    → IsDistinct (collect_refs annotations seen)
unfolding collect_refs
collect_refs-IsDistinct [] seen h = h
collect_refs-IsDistinct ((k, v) ∷ annotations) seen h =
    collect_refs-IsDistinct annotations _ (ground arith)

-- The result is strictly ordered by folder and then name.
refs_from_annotations-IsSorted :
    (annotations : Dict String String) → IsSorted (refs_from_annotations annotations)
unfolding refs_from_annotations
refs_from_annotations-IsSorted annotations =
    sort_refs-IsSorted _ (collect_refs-IsDistinct annotations [] tt)

-- The references of a pod are in strict order, and are exactly those that an annotation with the
-- prefix and a value stands for.
pub refs_from_annotations_lem :
    (annotations : Dict String String)
    → IsSorted (refs_from_annotations annotations)
      × ((r : EnvRef)
          → contains (refs_from_annotations annotations) r ≡ some_names_ref r annotations)
refs_from_annotations_lem annotations =
    (refs_from_annotations-IsSorted annotations, contains-refs_from_annotations annotations)

entry_dec : Discrete (String × String)
entry_dec = hlevel (string_eq.dec)

instance unfoldable pub entry_eq : Eq (String × String)
unfolding entry_dec string_eq
entry_eq = record { dec = entry_dec }

some_names_ref_of_entry :
    (annotations : Dict String String) (r : EnvRef) (k v : String)
    → contains {A = String × String} annotations (k, v) ≡ true
    → names_ref r k v ≡ true
    → some_names_ref r annotations ≡ true
some_names_ref_of_entry [] r k v m h = cc
some_names_ref_of_entry ((j, w) ∷ annotations) r k v m h =
    ground (arith, some_names_ref_of_entry annotations r k v)

some_names_ref_mono :
    (annotations others : Dict String String) (r : EnvRef)
    → ((e : String × String) → contains annotations e ≡ true → contains others e ≡ true)
    → some_names_ref r annotations ≡ true
    → some_names_ref r others ≡ true
some_names_ref_mono [] others r sub h = cc
some_names_ref_mono ((k, v) ∷ annotations) others r sub h = elim (Bool-cases (names_ref r k v)) [
  | inl hit ↦ some_names_ref_of_entry others r k v (sub (k, v) (ground arith)) hit
  | inr miss ↦ some_names_ref_mono annotations others r (λ e m. sub e (ground arith)) (rw miss at h)
]

-- Maps whose annotations stand for the same references have the same result.
pub refs_from_annotations-eq :
    (annotations others : Dict String String)
    → ((r : EnvRef) → some_names_ref r annotations ≡ some_names_ref r others)
    → refs_from_annotations annotations ≡ refs_from_annotations others
refs_from_annotations-eq annotations others same =
    IsSorted-ext _ _ (refs_from_annotations-IsSorted annotations)
      (refs_from_annotations-IsSorted others)
      λ r.
        contains-refs_from_annotations annotations r
        ∙ same r
        ∙ sym (contains-refs_from_annotations others r)

-- The order in which the map is walked, and an entry met twice, do not show in the result.
pub refs_from_annotations-ext :
    (annotations others : Dict String String)
    → ((e : String × String) → contains annotations e ≡ contains others e)
    → refs_from_annotations annotations ≡ refs_from_annotations others
refs_from_annotations-ext annotations others same =
    refs_from_annotations-eq annotations others agree
  where
    agree : (r : EnvRef) → some_names_ref r annotations ≡ some_names_ref r others
    agree r = ground (
      arith,
      some_names_ref_mono annotations others r (λ e m. sym (same e) ∙ m),
      some_names_ref_mono others annotations r (λ e m. same e ∙ m),
    )
