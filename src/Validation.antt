-- ===== src/Validation.antt =====
-- wotpy/wot/validation.py: is_valid_safe_name, over the code points of a name
pub mod SafeName
use Prim.Native.Char.{code}
use Prim.Native.String
use wot_py.Prelude.{
  ℕ, String, List, [], ◌∷◌, Bool, true, false, ◌&&◌, ◌||◌, ◌is◌, leb, if◌then◌else◌,
}

-- The code points of a text.
abbrev pub codes : String → List ℕ
codes String.[] = []
codes (String.◌∷◌ c s) = code c ∷ codes s

-- [a-zA-Z0-9_-]
unfoldable pub is_safe_char : ℕ → Bool
is_safe_char c =
    (leb b'a' c && leb c b'z')
    || (leb b'A' c && leb c b'Z')
    || (leb b'0' c && leb c b'9')
    || c is b'_'
    || c is b'-'

-- `[a-zA-Z0-9_-]*$` at a place in the text: `$` also matches in front of a newline that ends it
unfoldable pub match_rest : List ℕ → Bool
match_rest [] = true
match_rest (c ∷ []) = is_safe_char c || c is 10
match_rest (c ∷ cs) = is_safe_char c && match_rest cs

-- `^[a-zA-Z0-9_-]+$`
unfoldable pub match_safe_name : List ℕ → Bool
unfolding match_rest
match_safe_name [] = false
match_safe_name (c ∷ cs) = is_safe_char c && match_rest cs

unfoldable pub is_valid_safe_name : String → Bool
unfolding match_safe_name
is_valid_safe_name val = match_safe_name (codes val)
