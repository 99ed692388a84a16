-- ===== src/Prelude/Order.antt =====
-- Go's `<` on strings, which compares bytes. On UTF-8 that is the order of the code points.
use Prim.Native.Char.{code}
use native.Mathlib.Omega.{arith}
use text.Mathlib.TextEquality.{Char-path}
use mathlib.Core.Path.{◌≡◌, refl}
use mathlib.Core.Logic.{◌⊎◌, inl, inr}
use mathlib.Core.Bool.{Bool, true, false, ◌&&◌, ◌||◌}
use Prim.Native.String.{String}
use flox_controller.Prelude.Equality.{◌==◌, nat_eq}
use flox_controller.Prelude.Tests.{ltb}

unfoldable pub str_ltb : String → String → Bool
str_ltb s String.[] = false
str_ltb String.[] (String.◌∷◌ d t) = true
str_ltb (String.◌∷◌ c s) (String.◌∷◌ d t) =
    ltb (code c) (code d) || (code c == code d && str_ltb s t)

pub str_ltb_irrefl : (s : String) → str_ltb s s ≡ false
unfolding str_ltb
str_ltb_irrefl String.[] = refl
str_ltb_irrefl (String.◌∷◌ c s) = ground (arith, str_ltb_irrefl s)

pub str_ltb_trans : (s t u : String) → str_ltb s t ≡ true → str_ltb t u ≡ true → str_ltb s u ≡ true
unfolding str_ltb
str_ltb_trans s t String.[] h k = cc
str_ltb_trans s String.[] (String.◌∷◌ e u) h k = cc
str_ltb_trans String.[] (String.◌∷◌ d t) (String.◌∷◌ e u) h k = refl
str_ltb_trans (String.◌∷◌ c s) (String.◌∷◌ d t) (String.◌∷◌ e u) h k =
    ground (arith, str_ltb_trans s t u)

-- Two different strings are ordered one way or the other.
pub str_ltb_total : (s t : String) → (str_ltb s t ≡ true) ⊎ (s ≡ t) ⊎ (str_ltb t s ≡ true)
unfolding str_ltb
str_ltb_total String.[] String.[] = inr (inl refl)
str_ltb_total String.[] (String.◌∷◌ d t) = inl refl
str_ltb_total (String.◌∷◌ c s) String.[] = inr (inr refl)
str_ltb_total (String.◌∷◌ c s) (String.◌∷◌ d t) = ground (arith, Char-path c d, str_ltb_total s t)
