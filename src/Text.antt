-- ===== src/Text.antt =====
-- The methods of Python's `str` that images use: `strip`, and a comparison of `lower()` with a text of
-- small ASCII letters. A text is the list of its characters.
pub mod Split
use Prim.Native.Char.{code}
use Prim.Native.String.{String, [], ◌∷◌}
use ufuk_ai_agent.Prelude.{ℕ, ◌+◌, Bool, true, false, ◌&&◌, ◌||◌, ◌==◌, leb, if◌then◌else◌}

-- `str.isspace` of one character.
unfoldable pub is_space : ℕ → Bool
is_space c =
    (leb 9 c && leb c 13)
    || (leb 28 c && leb c 32)
    || c == 133
    || c == 160
    || c == 5760
    || (leb 8192 c && leb c 8202)
    || c == 8232
    || c == 8233
    || c == 8239
    || c == 8287
    || c == 12288

unfoldable pub lstrip : String → String
lstrip [] = []
lstrip (c ∷ s) = let rest = lstrip s in if is_space (code c) then rest else c ∷ s

abbrev pub is_empty : String → Bool
is_empty [] = true
is_empty (c ∷ s) = false

unfoldable pub rstrip : String → String
rstrip [] = []
rstrip (c ∷ s) = let rest = rstrip s in if is_space (code c) && is_empty rest then [] else c ∷ rest

unfoldable pub strip : String → String
unfolding lstrip rstrip
strip s = rstrip (lstrip s)

-- `s.lower() == t`, where `t` has small ASCII letters only.
unfoldable pub lower_eq : String → String → Bool
lower_eq [] [] = true
lower_eq [] (d ∷ t) = false
lower_eq (c ∷ s) [] = false
lower_eq (c ∷ s) (d ∷ t) =
    (code c == code d || (leb 65 (code c) && leb (code c) 90 && code c + 32 == code d))
    && lower_eq s t
