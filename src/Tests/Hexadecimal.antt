-- ===== src/Tests/Hexadecimal.antt =====
-- An implementation of the `hex` crate's interface.
use substation.Prelude.{
  ℕ, ◌+◌, ◌-◌, ◌*◌, ◌/◌, ◌%◌, ◌<◌, ◌≡◌, refl, ap, List, [], ◌∷◌, Option, none, some, length, arith,
  ltb, leb, ◌==◌, ◌&&◌, if◌then◌else◌,
}
use substation.Shard.Json.Hash.{Result, ok, err, AreBytes, Hex}

unfoldable digit : ℕ → ℕ
digit n = if ltb n 10 then b'0' + n else b'a' + (n - 10)

unfoldable value : ℕ → Option ℕ
value c =
    if leb b'0' c && leb c b'9'
    then some (c - b'0')
    else if leb b'a' c && leb c b'f'
    then some (c - b'a' + 10)
    else none

unfoldable encode : List ℕ → List ℕ
unfolding digit
encode [] = []
encode (b ∷ bs) = digit (b / 16) ∷ digit (b % 16) ∷ encode bs

-- A byte from the values of its digits, before the rest.
unfoldable joined : Option ℕ → Option ℕ → Option (List ℕ) → Option (List ℕ)
joined (some high) (some low) (some rest) = some ((high * 16 + low) ∷ rest)
joined _ _ _ = none

unfoldable pairs : List ℕ → Option (List ℕ)
unfolding value joined
pairs [] = some []
pairs (c ∷ []) = none
pairs (c ∷ d ∷ cs) = joined (value c) (value d) (pairs cs)

unfoldable checked : Option (List ℕ) → ℕ → Result Unit (List ℕ)
checked none n = err tt
checked (some bytes) n = if length bytes == n then ok bytes else err tt

unfoldable decode : List ℕ → ℕ → Result Unit (List ℕ)
unfolding pairs checked
decode text n = checked (pairs text) n

value-digit : (n : ℕ) → n < 16 → value (digit n) ≡ some n
unfolding value digit
value-digit n h = ground arith

pairs-encode : (bytes : List ℕ) → AreBytes bytes → pairs (encode bytes) ≡ some bytes
unfolding pairs encode joined
pairs-encode [] h = refl
pairs-encode (b ∷ bs) (small, h) =
    rw (value-digit (b / 16) (omega arith), value-digit (b % 16) (omega arith), pairs-encode bs h)
      (ap (λ k. some (k ∷ bs)) (omega arith))

value-small : (c n : ℕ) → value c ≡ some n → n < 16
unfolding value
value-small c n e = ground arith

no_bytes : {bytes : List ℕ} → none ≡ some bytes → ⊥
no_bytes e = cc

joined-AreBytes :
    (o p : Option ℕ) (q : Option (List ℕ)) (bytes : List ℕ)
    → ((n : ℕ) → o ≡ some n → n < 16)
    → ((n : ℕ) → p ≡ some n → n < 16)
    → ((bs : List ℕ) → q ≡ some bs → AreBytes bs)
    → joined o p q ≡ some bytes
    → AreBytes bytes
unfolding joined
joined-AreBytes none p q bytes f g h e = absurd (no_bytes e)
joined-AreBytes (some i) none q bytes f g h e = absurd (no_bytes e)
joined-AreBytes (some i) (some j) none bytes f g h e = absurd (no_bytes e)
joined-AreBytes (some i) (some j) (some bs) [] f g h e = tt
joined-AreBytes (some i) (some j) (some bs) (c ∷ cs) f g h e =
    (ground (arith, f i refl, g j refl), h cs (ground arith))

pairs-AreBytes : (text bytes : List ℕ) → pairs text ≡ some bytes → AreBytes bytes
unfolding pairs
pairs-AreBytes [] [] e = tt
pairs-AreBytes [] (b ∷ bs) e = absurd (more e)
  where
    more : some [] ≡ some (b ∷ bs) → ⊥
    more h = cc
pairs-AreBytes (c ∷ []) bytes e = cc
pairs-AreBytes (c ∷ d ∷ cs) bytes e =
    joined-AreBytes (value c) (value d) (pairs cs) bytes (value-small c) (value-small d)
      (pairs-AreBytes cs) e

checked_lem :
    (o : Option (List ℕ)) (bytes : List ℕ) (n : ℕ)
    → checked o n ≡ ok bytes
    → (length bytes ≡ n) × (o ≡ some bytes)
unfolding checked
checked_lem none bytes n e = cc
checked_lem (some bs) bytes n e = ground arith

pub hexadecimal : Hex
unfolding decode encode
hexadecimal = record {
  FromHexError = Unit;
  encode_to_slice = encode;
  decode_to_slice = decode;
  decode-encode = λ bytes h. rw (pairs-encode bytes h) (ground arith);
  decode-length = λ text bytes n e.
      let (same, is) = checked_lem (pairs text) bytes n e in (same, pairs-AreBytes text bytes is);
}
