-- ===== src/Manifest/Reference.antt =====
-- The floxcatalog: references: what is written is read back.
use text.Mathlib.TextLemmas.{cons-append, nil-append}
use Prim.Native.Char.{Char, code}
use flox_controller.Prelude.{
  ℕ, String, ◌<>◌, none, some, ◌==◌, string_eq, nat_eq, if◌then◌else◌, trim_prefix,
  strip_prefix-append, split_first, ok, ◌≡◌, ◌≢◌, refl, arith, Bool-cases, ◌⊎◌, inl, inr,
}
use flox_controller.Manifest.{
  FloxCatalogRef, parse_flox_catalog_ref, flox_catalog_scheme, split_output, split_namespace,
}

hash_cons : (b : String) → "#" <> b ≡ String.◌∷◌ "#" b
hash_cons b = rw (cons-append, nil-append)

slash_cons : (b : String) → "/" <> b ≡ String.◌∷◌ "/" b
slash_cons b = rw (cons-append, nil-append)

-- The text has no such character.
abbrev pub Lacks : ℕ → String → Type 0
Lacks sep s = split_first sep s ≡ none

split_first-append :
    (sep : ℕ) (c : Char) (a b : String)
    → code c ≡ sep
    → Lacks sep a
    → split_first sep (a <> String.◌∷◌ c b) ≡ some (a, b)
unfolding split_first
split_first-append sep c String.[] b h l = rw nil-append (ground arith)
split_first-append sep c (String.◌∷◌ d a) b h l =
    rw cons-append (ground (arith, split_first-append sep c a b h))

Lacks-append : (sep : ℕ) (a b : String) → Lacks sep a → Lacks sep b → Lacks sep (a <> b)
unfolding split_first
Lacks-append sep String.[] b h k = rw nil-append k
Lacks-append sep (String.◌∷◌ d a) b h k = rw cons-append (ground (arith, Lacks-append sep a b))

pub split_first-slash :
    (a b : String) → Lacks b'/' a → split_first b'/' (a <> ("/" <> b)) ≡ some (a, b)
split_first-slash a b l = rw slash_cons (split_first-append b'/' "/" a b refl l)

print_body : String → String → String
print_body ns name = if ns == "" then name else ns <> ("/" <> name)

-- A reference as the manifest writes it.
pub print_ref : FloxCatalogRef → String
unfolding print_body
print_ref ref =
    flox_catalog_scheme
    <> (if ref.output == ""
        then print_body ref.namespace ref.name
        else print_body ref.namespace ref.name <> ("#" <> ref.output))

trim_prefix-append : (p s : String) → trim_prefix (p <> s) p ≡ s
unfolding trim_prefix
trim_prefix-append p s = rw strip_prefix-append

split_output-print :
    (body output : String)
    → Lacks b'#' body
    → split_output (if output == "" then body else body <> ("#" <> output)) ≡ (body, output)
unfolding split_output
split_output-print body output l = elim (Bool-cases (output == "")) [
  | inl bare ↦ ground (arith, bare, l)
  | inr given ↦
      rw given (rw (hash_cons, split_output, split_first-append b'#' "#" body output refl l))
]

split_namespace-print :
    (ns name : String)
    → Lacks b'/' ns
    → Lacks b'/' name ⊎ (ns ≢ "")
    → split_namespace (print_body ns name) ≡ (ns, name)
unfolding split_namespace print_body
split_namespace-print ns name l h = elim (Bool-cases (ns == "")) [
  | inl bare ↦ ground (arith, bare, l)
  | inr given ↦
      rw given (rw (slash_cons, split_namespace, split_first-append b'/' "/" ns name refl l))
]

slash-Lacks_hash : Lacks b'#' "/"
unfolding split_first nat_eq
slash-Lacks_hash = refl

Lacks-print_body :
    (ns name : String) → Lacks b'#' ns → Lacks b'#' name → Lacks b'#' (print_body ns name)
unfolding print_body
Lacks-print_body ns name h k = elim (Bool-cases (ns == "")) [
  | inl bare ↦ rw bare k
  | inr given ↦ rw given (Lacks-append b'#' ns _ h (Lacks-append b'#' "/" name slash-Lacks_hash k))
]

-- A reference with a name is read back as it was written. Its namespace and name hold no `#`, the
-- namespace no `/`, and the name none where there is no namespace.
pub parse_flox_catalog_ref-print_ref :
    (ref : FloxCatalogRef)
    → ref.name ≢ ""
    → Lacks b'#' ref.namespace
    → Lacks b'#' ref.name
    → Lacks b'/' ref.namespace
    → Lacks b'/' ref.name ⊎ (ref.namespace ≢ "")
    → parse_flox_catalog_ref (print_ref ref) ≡ ok ref
unfolding parse_flox_catalog_ref print_ref
parse_flox_catalog_ref-print_ref ref named h k l m =
    rw
      (
        trim_prefix-append,
        split_output-print _ ref.output (Lacks-print_body ref.namespace ref.name h k),
        split_namespace-print ref.namespace ref.name l m,
      )
      (ground arith)
