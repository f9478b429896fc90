-- ===== src/Prelude/Text.antt =====
-- Texts as lists of characters, with what the code uses of `str`.
pub mod Laws
use Prim.Native.Char.{Char, code}
use substation.Prelude.{
  ℕ, Bool, true, false, ◌||◌, ◌&&◌, String, Option, none, some, List, [], ◌∷◌, ◌++◌, leb, ◌==◌,
  if◌then◌else◌,
}

abbrev pub Text : Type 0
Text = List Char

abbrev pub chars : String → Text
chars String.[] = []
chars (String.◌∷◌ c s) = c ∷ chars s

abbrev pub text : Text → String
text [] = String.[]
text (c ∷ cs) = String.◌∷◌ c (text cs)

abbrev pub onto_first : Char → List Text → List Text
onto_first c [] = (c ∷ []) ∷ []
onto_first c (piece ∷ pieces) = (c ∷ piece) ∷ pieces

-- `split` at a character: one piece more than it stands in the text.
unfoldable pub split_on : ℕ → Text → List Text
split_on sep [] = [] ∷ []
split_on sep (c ∷ cs) =
    let rest = split_on sep cs in if code c == sep then [] ∷ rest else onto_first c rest

abbrev pub reverse : {A : Type 0} → List A → List A
reverse [] = []
reverse (x ∷ xs) = reverse xs ++ x ∷ []

-- Unicode's `White_Space`.
unfoldable pub is_whitespace : ℕ → Bool
is_whitespace c =
    leb 0x9 c && leb c 0xd
    || c == 0x20
    || c == 0x85
    || c == 0xa0
    || c == 0x1680
    || leb 0x2000 c && leb c 0x200a
    || c == 0x2028
    || c == 0x2029
    || c == 0x202f
    || c == 0x205f
    || c == 0x3000

unfoldable pub trim_start : Text → Text
unfolding is_whitespace
trim_start [] = []
trim_start (c ∷ cs) = let rest = trim_start cs in if is_whitespace (code c) then rest else c ∷ cs

unfoldable pub trim : Text → Text
unfolding trim_start
trim s = reverse (trim_start (reverse (trim_start s)))

abbrev pub onto_key : Char → Option (Text × Text) → Option (Text × Text)
onto_key c none = none
onto_key c (some (key, value)) = some (c ∷ key, value)

-- The two parts of `splitn(2, sep)`, which are those about the place that `find` returns, where there
-- are two.
unfoldable pub cut_at : ℕ → Text → Option (Text × Text)
cut_at sep [] = none
cut_at sep (c ∷ cs) =
    let rest = cut_at sep cs in if code c == sep then some ([], cs) else onto_key c rest
