-- ===== src/Filepath/Files.antt =====
-- Files of a directory that differ in their last character are different files.
use Prim.Native.Char.{Char, code}
use text.Mathlib.TextLemmas.{cons-append, nil-append}
use flox_controller.Prelude.{ℕ, String, ◌<>◌, true, [], ◌∷◌, ◌≡◌, ◌≢◌, refl, ap, sym, ◌∙◌}
use flox_controller.Filepath.{join_path}
use flox_controller.Filepath.Plain.{is_kept, join_path-kept, prefix_of}

unfoldable pub last_code : String → ℕ
last_code String.[] = 0
last_code (String.◌∷◌ c String.[]) = code c
last_code (String.◌∷◌ c (String.◌∷◌ d s)) = last_code (String.◌∷◌ d s)

last_code-append :
    (s : String) (c : Char) (t : String)
    → last_code (s <> String.◌∷◌ c t) ≡ last_code (String.◌∷◌ c t)
unfolding last_code
last_code-append String.[] c t = rw nil-append refl
last_code-append (String.◌∷◌ d String.[]) c t = rw (cons-append, nil-append) refl
last_code-append (String.◌∷◌ d (String.◌∷◌ e s)) c t =
    let ih = last_code-append (String.◌∷◌ e s) c t in
    rw (cons-append, cons-append) (rw cons-append at ih)

-- The path of a file, for a name that Clean keeps.
pub last_code-join_path :
    (folder : String) (c : Char) (t : String)
    → folder ≢ ""
    → is_kept (String.◌∷◌ c t) ≡ true
    → last_code (join_path (folder ∷ String.◌∷◌ c t ∷ [])) ≡ last_code (String.◌∷◌ c t)
last_code-join_path folder c t h kept =
    ap last_code (join_path-kept folder (String.◌∷◌ c t) h kept)
    ∙ last_code-append (prefix_of folder) c t

pub ne_by_last : (a b : String) (m n : ℕ) → last_code a ≡ m → last_code b ≡ n → m ≢ n → a ≢ b
ne_by_last a b m n ha hb h e = h (sym ha ∙ ap last_code e ∙ hb)
