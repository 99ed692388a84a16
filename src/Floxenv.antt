-- ===== src/Floxenv.antt =====
-- internal/floxenv/floxenv.go: the environment annotations of a pod and the flox settings.
pub mod Sorting
pub mod Refs
use flox_controller.Prelude.{
  String, ◌<>◌, Bool, ◌||◌, not, none, some, List, [], ◌∷◌, Eq, ◌==◌, string_eq, if◌then◌else◌,
  contains, has_prefix, split_last, join,
}
use flox_controller.Prelude.Dict.{Dict}
use flox_controller.Prelude.Order.{str_ltb}

abbrev pub annotation_prefix : String
annotation_prefix = "flox.seedmatic.io/environment."

abbrev pub default_category : String
default_category = "networking"

abbrev pub scheduling_gate_name : String
scheduling_gate_name = "flox.seedmatic.io/env-ready"

pub record EnvRef : Type 0 where
  pub folder : String
  pub name : String

ref_dec : Discrete EnvRef
ref_dec = hlevel (string_eq.dec)

instance unfoldable pub ref_eq : Eq EnvRef
unfolding ref_dec string_eq
ref_eq = record { dec = ref_dec }

-- The folder and the name that an annotation's value stands for.
unfoldable pub parse_ref : String → EnvRef
parse_ref v = elim (split_last b'/' v) [
  | some (folder, name) ↦ record { folder = folder; name = name }
  | none ↦ record { folder = default_category; name = v }
]

-- The loop over the annotations, and `seen`.
unfoldable pub collect_refs : Dict String String → List EnvRef → List EnvRef
collect_refs [] seen = seen
collect_refs ((k, v) ∷ annotations) seen = collect_refs annotations (
    if not (has_prefix k annotation_prefix) || v == ""
    then seen
    else if contains seen (parse_ref v)
    then seen
    else parse_ref v ∷ seen)

-- The comparison given to `sort.Slice`.
pub ref_ltb : EnvRef → EnvRef → Bool
ref_ltb a b =
    if not (a.folder == b.folder) then str_ltb a.folder b.folder else str_ltb a.name b.name

insert_ref : EnvRef → List EnvRef → List EnvRef
insert_ref r [] = r ∷ []
insert_ref r (x ∷ xs) = if ref_ltb r x then r ∷ x ∷ xs else x ∷ insert_ref r xs

-- `sort.Slice` on references that all differ.
pub sort_refs : List EnvRef → List EnvRef
sort_refs [] = []
sort_refs (x ∷ xs) = insert_ref x (sort_refs xs)

unfoldable pub refs_from_annotations : Dict String String → List EnvRef
unfolding parse_ref collect_refs ref_ltb insert_ref sort_refs
refs_from_annotations annotations = sort_refs (collect_refs annotations [])

pub record Setting : Type 0 where
  pub name : String
  pub value : String

abbrev pub settings : List Setting
settings =
    record { name = "_FLOX_TESTING_DISABLE_BG_SIDE_EFFECTS"; value = "true" }
    ∷ record { name = "FLOX_DISABLE_METRICS"; value = "true" }
    ∷ record { name = "FLOX_NO_TELEMETRY"; value = "1" }
    ∷ record { name = "FLOX_NONINTERACTIVE"; value = "1" }
    ∷ []

environ_of : List Setting → List String
environ_of [] = []
environ_of (s ∷ rest) = (s.name <> ("=" <> s.value)) ∷ environ_of rest

unfoldable pub environ : List String
unfolding environ_of
environ = environ_of settings

unfoldable pub nix_config : String
nix_config =
    join
      ("experimental-features = nix-command flakes" ∷ "accept-flake-config = true"
        ∷ "build-users-group =" ∷ "sandbox = false" ∷ "min-free = 5368709120"
        ∷ "max-free = 10737418240" ∷ [])
      "\n"
