-- ===== src/Filepath/Plain.antt =====
-- Clean on a directory and a path without empty or dotted elements behind it: the path is kept.
use Prim.Native.Char.{Char, code}
use text.Mathlib.TextLemmas.{cons-append, nil-append, append_assoc}
use mathlib.Core.List.{append-nil as list_append-nil}
use text.Mathlib.TextEquality.{Char-path}
use flox_controller.Prelude.{
  String, ◌<>◌, Bool, true, false, not, ◌&&◌, ◌||◌, List, [], ◌∷◌, ◌++◌, ◌==◌, string_eq, nat_eq,
  if◌then◌else◌, join, has_prefix, strip_prefix, ◌≡◌, ◌≢◌, refl, ap, sym, arith, Bool-cases, inl,
  inr,
}
use flox_controller.Filepath.{add_char, elements, step, walk, reverse, render, clean, join_path}

-- An element that Clean keeps.
abbrev pub is_plain : String → Bool
is_plain e = not (e == "" || e == "." || e == "..")

abbrev pub all_plain : List String → Bool
all_plain [] = true
all_plain (e ∷ es) = is_plain e && all_plain es

pub elements-cases : (s : String) → (e : String) × (es : List String) × (elements s ≡ e ∷ es)
unfolding elements
elements-cases String.[] = ("", [], refl)
elements-cases (String.◌∷◌ c s) =
    let (e, es, h) = elements-cases s in
    elim (code c == b'/')
      as (λ b.
        (f : String) × (fs : List String) × ((if b
            then "" ∷ elements s
            else add_char c (elements s))
          ≡ f ∷ fs)) [ true ↦ ("", elements s, refl) | false ↦ (String.◌∷◌ c e, es, rw h refl) ]

pub elements-append : (a b : String) → elements (a <> ("/" <> b)) ≡ elements a ++ elements b
unfolding elements nat_eq
elements-append String.[] b = rw (nil-append, cons-append) (rw (nil-append b) refl)
elements-append (String.◌∷◌ c a) b =
    rw cons-append (let (e, es, h) = elements-cases a in ground (arith, elements-append a b, h))

join-add_char :
    (c : Char) (e : String) (es : List String)
    → join (add_char c (e ∷ es)) "/" ≡ String.◌∷◌ c (join (e ∷ es) "/")
unfolding join
join-add_char c e [] = refl
join-add_char c e (f ∷ fs) = rw cons-append refl

pub join-elements : (s : String) → join (elements s) "/" ≡ s
unfolding elements join
join-elements String.[] = refl
join-elements (String.◌∷◌ c s) =
    let (e, es, h) = elements-cases s in
    let whole = join-elements s in
    let ih : join (e ∷ es) "/" ≡ s = rw h at whole in
    elim (Bool-cases (code c == b'/')) [
      | inr other ↦ rw (other, h, join-add_char c e es) (ap (λ (t : String). String.◌∷◌ c t) ih)
      | inl slash ↦
          let same : c ≡ "/" = Char-path c "/" (ground (arith, slash)) in
          rw (slash, h, nil-append, ih, same, cons-append, nil-append s) refl
    ]

walk-append :
    (rooted : Bool) (passed xs ys : List String)
    → walk rooted passed (xs ++ ys) ≡ walk rooted (walk rooted passed xs) ys
unfolding walk
walk-append rooted passed [] ys = refl
walk-append rooted passed (x ∷ xs) ys = walk-append rooted (step rooted passed x) xs ys

walk-plain :
    (rooted : Bool) (passed es : List String)
    → all_plain es ≡ true
    → walk rooted passed es ≡ reverse es passed
unfolding walk step
walk-plain rooted passed [] h = refl
walk-plain rooted passed (e ∷ es) h = ground (arith, walk-plain rooted (e ∷ passed) es)

reverse-reverse : (xs ys zs : List String) → reverse (reverse xs ys) zs ≡ reverse ys (xs ++ zs)
reverse-reverse [] ys zs = refl
reverse-reverse (x ∷ xs) ys zs = reverse-reverse xs (x ∷ ys) zs

abbrev lead : List String → String
lead [] = ""
lead (p ∷ ps) = p <> ("/" <> lead ps)

join-append :
    (ps : List String) (n : String) (ns : List String)
    → join (ps ++ (n ∷ ns)) "/" ≡ lead ps <> join (n ∷ ns) "/"
unfolding join
join-append [] n ns = rw nil-append refl
join-append (p ∷ []) n ns = sym (append_assoc p "/" (join (n ∷ ns) "/"))
join-append (p ∷ q ∷ ps) n ns =
    rw (append_assoc p _ _, append_assoc "/" _ _)
      (ap (λ (t : String). p <> ("/" <> t)) (join-append (q ∷ ps) n ns))

reverse-append : (w acc ns : List String) → reverse w (acc ++ ns) ≡ reverse w acc ++ ns
reverse-append [] acc ns = refl
reverse-append (x ∷ w) acc ns = reverse-append w (x ∷ acc) ns

has_prefix-slash :
    (base rest : String) → base ≢ "" → has_prefix (base <> rest) "/" ≡ has_prefix base "/"
unfolding has_prefix strip_prefix
has_prefix-slash String.[] rest h = absurd (h refl)
has_prefix-slash (String.◌∷◌ c base) rest h = rw cons-append (ground arith)

-- What Clean makes of the directory.
pub prefix_of : String → String
prefix_of base =
    let rooted = has_prefix base "/" in
    (if rooted then "/" else "") <> lead (reverse (walk rooted [] (elements base)) [])

render-append :
    (rooted : Bool) (ps : List String) (n : String) (ns : List String)
    → render rooted (ps ++ (n ∷ ns))
      ≡ (if rooted then "/" else "") <> (lead ps <> join (n ∷ ns) "/")
unfolding render
render-append true ps n ns = ap (λ (t : String). "/" <> t) (join-append ps n ns)
render-append false [] n ns = rw (nil-append, nil-append) refl
render-append false (p ∷ ps) n ns = rw nil-append (join-append (p ∷ ps) n ns)

pub clean-plain :
    (base rest : String)
    → base ≢ ""
    → all_plain (elements rest) ≡ true
    → clean (base <> ("/" <> rest)) ≡ prefix_of base <> rest
unfolding clean prefix_of
clean-plain base rest h plain =
    let (e, es, split) = elements-cases rest in
    let whole = join-elements rest in
    let rooted = has_prefix base "/" in
    let w = walk rooted [] (elements base) in
    rw
      (
        has_prefix-slash base ("/" <> rest) h,
        elements-append base rest,
        walk-append rooted [] (elements base) (elements rest),
        walk-plain rooted w (elements rest) plain,
        reverse-reverse (elements rest) w [],
        reverse-append w [] (elements rest ++ []),
        split,
        list_append-nil,
        render-append rooted (reverse w []) e es,
        rw split at whole,
      )
      (sym (append_assoc (if rooted then "/" else "") (lead (reverse w [])) rest))

-- A relative path that Clean keeps.
abbrev pub is_kept : String → Bool
is_kept path = all_plain (elements path)

kept-ne-empty : (path : String) → is_kept path ≡ true → path ≢ ""
unfolding elements string_eq
kept-ne-empty path h e = cc (rw e at h)

all_plain-append : (xs ys : List String) → all_plain (xs ++ ys) ≡ (all_plain xs && all_plain ys)
all_plain-append [] ys = refl
all_plain-append (x ∷ xs) ys = ground (arith, all_plain-append xs ys)

pub is_kept-append :
    (a b : String) → is_kept a ≡ true → is_kept b ≡ true → is_kept (a <> ("/" <> b)) ≡ true
is_kept-append a b ha hb =
    rw (elements-append a b, all_plain-append (elements a) (elements b), ha, hb) refl

-- A text without a slash is one element, and stays one before another such.
pub elements-append_whole :
    (a b : String) → elements a ≡ a ∷ [] → elements b ≡ b ∷ [] → elements (a <> b) ≡ (a <> b) ∷ []
unfolding elements
elements-append_whole String.[] b ha hb = rw nil-append hb
elements-append_whole (String.◌∷◌ c a) b ha hb =
    let (e, es, h) = elements-cases a in
    elim (Bool-cases (code c == b'/')) [
      | inl slash ↦
          let bad : ◌≡◌ {A = List String} ("" ∷ elements a) (String.◌∷◌ c a ∷ []) =
            rw slash at ha in
          cc
      | inr other ↦
          let mine : String.◌∷◌ c e ∷ es ≡ String.◌∷◌ c a ∷ [] = rw (other, h) at ha in
          let whole : elements a ≡ a ∷ [] = ground (arith, h, mine) in
          rw (cons-append, other, elements-append_whole a b whole hb) refl
    ]

pub join_path-kept :
    (base a : String)
    → base ≢ ""
    → is_kept a ≡ true
    → join_path (base ∷ a ∷ []) ≡ prefix_of base <> a
unfolding join_path join
join_path-kept base a hb ha = ground (arith, clean-plain base a hb ha, kept-ne-empty a ha)

pub join_path-kept_pair :
    (base a b : String)
    → base ≢ ""
    → is_kept a ≡ true
    → is_kept b ≡ true
    → join_path (base ∷ a ∷ b ∷ []) ≡ prefix_of base <> (a <> ("/" <> b))
unfolding join_path join
join_path-kept_pair base a b h ha hb = ground (
  arith,
  clean-plain base (a <> ("/" <> b)) h (is_kept-append a b ha hb),
  kept-ne-empty a ha,
  kept-ne-empty b hb,
)
