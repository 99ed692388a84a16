-- ===== src/Filepath.antt =====
-- Go's path/filepath on Unix: Clean, Join and Dir.
use Prim.Native.Char.{Char, code}
pub mod Plain
pub mod Files
use flox_controller.Prelude.{
  String, ◌<>◌, Bool, true, false, ◌||◌, List, [], ◌∷◌, ◌==◌, string_eq, nat_eq, if◌then◌else◌,
  none, some, split_last, join, has_prefix,
}

abbrev add_char : Char → List String → List String
add_char c [] = String.◌∷◌ c "" ∷ []
add_char c (p ∷ ps) = String.◌∷◌ c p ∷ ps

-- The elements between the slashes.
unfoldable pub elements : String → List String
elements String.[] = "" ∷ []
elements (String.◌∷◌ c s) =
    let rest = elements s in if code c == b'/' then "" ∷ rest else add_char c rest

-- One step up from the elements passed, the last one first. Nothing is above the root, and a
-- relative path may start with "..".
unfoldable pub up : Bool → List String → List String
up true [] = []
up false [] = ".." ∷ []
up true (p ∷ passed) = passed
up false (p ∷ passed) = if p == ".." then ".." ∷ p ∷ passed else passed

unfoldable pub step : Bool → List String → String → List String
unfolding up
step rooted passed e =
    if e == "" || e == "."
    then passed
    else (let above = up rooted passed in if e == ".." then above else e ∷ passed)

unfoldable pub walk : Bool → List String → List String → List String
unfolding step
walk rooted passed [] = passed
walk rooted passed (e ∷ es) = walk rooted (step rooted passed e) es

abbrev reverse : List String → List String → List String
reverse [] acc = acc
reverse (p ∷ ps) acc = reverse ps (p ∷ acc)

unfoldable pub render : Bool → List String → String
render true ps = "/" <> join ps "/"
render false [] = "."
render false (p ∷ ps) = join (p ∷ ps) "/"

-- `filepath.Clean`
unfoldable pub clean : String → String
unfolding elements walk render
clean path =
    let rooted = has_prefix path "/" in render rooted (reverse (walk rooted [] (elements path)) [])

abbrev without_empty : List String → List String
without_empty [] = []
without_empty (p ∷ ps) = if p == "" then without_empty ps else p ∷ without_empty ps

-- `filepath.Join`
unfoldable pub join_path : List String → String
unfolding clean
join_path parts =
    let kept = without_empty parts in elim kept [ [] ↦ "" | p ∷ ps ↦ clean (join (p ∷ ps) "/") ]

-- `filepath.Dir`
unfoldable pub dir : String → String
unfolding clean
dir path = elim (split_last b'/' path) [ some (parent, name) ↦ clean (parent <> "/") | none ↦ "." ]
