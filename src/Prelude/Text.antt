-- ===== src/Prelude/Text.antt =====
-- The functions of Go's `strings` that the program calls, over the characters of a text.
use Prim.Native.Nat.{ℕ, zero, suc, ◌/◌, ◌%◌, ◌≤◌}
use Prim.Native.Char.{code}
use Prim.Native.String.{String, ◌++◌, slice}
use mathlib.Core.Path.{◌≡◌, refl}
use mathlib.Core.Bool.{Bool, true, false, ◌&&◌, ◌||◌}
use mathlib.Core.Option.{Option, none, some, get_or}
use mathlib.Core.List.{List}
use native.Mathlib.Omega.{arith}
use text.Mathlib.TextEquality.{Char-path}
use text.Mathlib.TextLemmas.{cons-append, nil-append}
use flox_controller.Prelude.Equality.{◌==◌, nat_eq, string_eq, if◌then◌else◌}
use flox_controller.Prelude.Tests.{leb}

-- What is left of `s` behind `prefix`.
unfoldable pub strip_prefix : String → String → Option String
strip_prefix String.[] s = some s
strip_prefix (String.◌∷◌ c p) String.[] = none
strip_prefix (String.◌∷◌ c p) (String.◌∷◌ d s) = if code c == code d then strip_prefix p s else none

abbrev pub is_some {ℓ} : {A : Type ℓ} → Option A → Bool
is_some none = false
is_some (some a) = true

-- `strings.HasPrefix(s, prefix)`
unfoldable pub has_prefix : String → String → Bool
unfolding strip_prefix
has_prefix s prefix = is_some (strip_prefix prefix s)

-- `strings.TrimPrefix(s, prefix)`
unfoldable pub trim_prefix : String → String → String
unfolding strip_prefix
trim_prefix s prefix = get_or (strip_prefix prefix s) s

-- `strings.HasSuffix(s, suffix)`
unfoldable pub has_suffix : String → String → Bool
has_suffix String.[] suffix = "" == suffix
has_suffix (String.◌∷◌ c s) suffix = String.◌∷◌ c s == suffix || has_suffix s suffix

-- `unicode.IsSpace`
abbrev is_space : ℕ → Bool
is_space c =
    (leb 9 c && leb c 13)
    || c == 32
    || c == 133
    || c == 160
    || c == 5760
    || (leb 8192 c && leb c 8202)
    || c == 8232
    || c == 8233
    || c == 8239
    || c == 8287
    || c == 12288

unfoldable pub trim_left : String → String
trim_left String.[] = ""
trim_left (String.◌∷◌ c s) =
    let rest = trim_left s in if is_space (code c) then rest else String.◌∷◌ c s

unfoldable pub trim_right : String → String
trim_right String.[] = ""
trim_right (String.◌∷◌ c s) =
    let rest = trim_right s in if is_space (code c) && rest == "" then "" else String.◌∷◌ c rest

-- `strings.TrimSpace(s)`
unfoldable pub trim_space : String → String
unfolding trim_left trim_right
trim_space s = trim_right (trim_left s)

-- `s[:i]` and `s[i+1:]` for `i := strings.Index(s, sep)`, where `sep` is one character.
unfoldable pub split_first : ℕ → String → Option (String × String)
split_first sep String.[] = none
split_first sep (String.◌∷◌ c s) =
    let rest = split_first sep s in
    if code c == sep
    then some ("", s)
    else elim rest [ none ↦ none | some (a, b) ↦ some (String.◌∷◌ c a, b) ]

-- The same for `i := strings.LastIndex(s, sep)`.
unfoldable pub split_last : ℕ → String → Option (String × String)
split_last sep String.[] = none
split_last sep (String.◌∷◌ c s) = elim (split_last sep s) [
  | some (a, b) ↦ some (String.◌∷◌ c a, b)
  | none ↦ if code c == sep then some ("", s) else none
]

-- `strings.Join(parts, sep)`
unfoldable pub join : List String → String → String
join List.[] sep = ""
join (List.◌∷◌ s List.[]) sep = s
join (List.◌∷◌ s (List.◌∷◌ t ts)) sep = s ++ (sep ++ join (List.◌∷◌ t ts) sep)

pub strip_prefix-append : (p s : String) → strip_prefix p (p ++ s) ≡ some s
unfolding strip_prefix
strip_prefix-append String.[] s = rw nil-append
strip_prefix-append (String.◌∷◌ c p) s = rw cons-append (ground (arith, strip_prefix-append p s))

pub strip_prefix-eq_some : (p s r : String) → strip_prefix p s ≡ some r → s ≡ p ++ r
unfolding strip_prefix
strip_prefix-eq_some String.[] s r h = rw nil-append (ground arith)
strip_prefix-eq_some (String.◌∷◌ c p) String.[] r h = cc
strip_prefix-eq_some (String.◌∷◌ c p) (String.◌∷◌ d s) r h =
    rw cons-append (ground (arith, strip_prefix-eq_some p s r, Char-path c d))

-- The decimal digits of a number, the last ones by the fuel.
unfoldable pub decimal_with : ℕ → ℕ → String
decimal_with zero n = slice "0123456789" n (suc n)
decimal_with (suc fuel) n =
    let rest = decimal_with fuel (n / 10) in
    let digit = slice "0123456789" (n % 10) (suc (n % 10)) in
    if n == n % 10 then digit else rest ++ digit

-- `%d` of `fmt.Sprintf`. A number has fewer digits than its value.
unfoldable pub decimal : ℕ → String
unfolding decimal_with
decimal n = decimal_with n n

-- More fuel gives the same digits.
pub decimal_with-suc : (fuel n : ℕ) → n ≤ fuel → decimal_with (suc fuel) n ≡ decimal_with fuel n
unfolding decimal_with nat_eq
decimal_with-suc zero n h = let e : n ≡ 0 = omega arith in rw e refl
decimal_with-suc (suc fuel) n h = rw (decimal_with-suc fuel (n / 10) (omega arith)) refl
