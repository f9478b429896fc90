-- ===== src/Prelude/ParseInt.antt =====
-- `str::parse` of the standard library at `u64`: an optional `+`, then one or more decimal digits,
-- of a value below 2 ^ 64.
use Prim.Native.Char.{code}
use Prim.Native.Nat.{ℕ, ◌+◌, ◌-◌, ◌*◌, ◌^◌}
use Prim.Native.String.{String}
use mathlib.Core.Bool.{Bool, ◌&&◌}
use mathlib.Core.List.{List, [], ◌∷◌}
use mathlib.Core.Option.{Option, none, some}
use mathlib.Core.Path.{◌≡◌, refl}
use substation.Prelude.Tests.{ltb, leb, ◌==◌, if◌then◌else◌}

-- The code points of a text.
abbrev pub codes : String → List ℕ
codes String.[] = []
codes (String.◌∷◌ c s) = code c ∷ codes s

abbrev pub is_digit : ℕ → Bool
is_digit c = leb b'0' c && leb c b'9'

-- `none` on a character that is no digit, and on overflow.
unfoldable pub digits_u64 : ℕ → List ℕ → Option ℕ
digits_u64 n [] = some n
digits_u64 n (c ∷ cs) =
    let next = n * 10 + (c - b'0') in
    let rest = digits_u64 next cs in if is_digit c && ltb next (2 ^ 64) then rest else none

unfoldable pub unsigned_u64 : List ℕ → Option ℕ
unfolding digits_u64
unsigned_u64 [] = none
unsigned_u64 (c ∷ cs) = digits_u64 0 (c ∷ cs)

unfoldable pub codes_u64 : List ℕ → Option ℕ
unfolding unsigned_u64
codes_u64 [] = none
codes_u64 (c ∷ cs) = if c == b'+' then unsigned_u64 cs else unsigned_u64 (c ∷ cs)

unfoldable pub parse_u64 : String → Option ℕ
unfolding codes_u64
parse_u64 s = codes_u64 (codes s)

parse_test : parse_u64 "1625565542717" ≡ some 1625565542717
unfolding parse_u64
parse_test = refl

parse_max : parse_u64 "18446744073709551615" ≡ some 18446744073709551615
unfolding parse_u64
parse_max = refl

parse_overflow : parse_u64 "18446744073709551616" ≡ none
unfolding parse_u64
parse_overflow = refl
