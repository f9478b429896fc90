-- ===== src/Shard/Json/Hash.antt =====
-- backend/telemetry_shard/src/json_message/hash.rs. A hash is its 32 bytes.
pub mod Laws
use substation.Prelude.{
  ℕ, zero, suc, ◌+◌, ◌*◌, ◌/◌, ◌%◌, ◌<◌, ◌^◌, ◌≡◌, Bool, ◌&&◌, List, [], ◌∷◌, ◌++◌, Option, none,
  some, length, ◌==◌, if◌then◌else◌,
}
use substation.Common.Types.{BlockHash}

-- `Result`.
pub data Result (E A : Type 0) : Type 0 where
  ok : A → Result E A
  err : E → Result E A

abbrev pub AreBytes : List ℕ → Type 0
AreBytes [] = Unit
AreBytes (b ∷ bs) = (b < 2 ^ 8) × AreBytes bs

-- The `hex` crate, which is not part of the repository: it decodes a text into a slice of a given length,
-- and decodes what it encodes.
pub record Hex : Type 1 where
  pub FromHexError : Type 0
  pub encode_to_slice : List ℕ → List ℕ
  pub decode_to_slice : List ℕ → ℕ → Result FromHexError (List ℕ)
  pub decode-encode :
      (bytes : List ℕ)
      → AreBytes bytes
      → decode_to_slice (encode_to_slice bytes) (length bytes) ≡ ok bytes
  pub decode-length :
      (text bytes : List ℕ) (n : ℕ)
      → decode_to_slice text n ≡ ok bytes
      → (length bytes ≡ n) × AreBytes bytes

abbrev pub hash_bytes : ℕ
hash_bytes = 32

abbrev pub Hash : Type 0
Hash = List ℕ

-- The number that the bytes of a block hash are, and those bytes.
unfoldable pub number_from : ℕ → List ℕ → BlockHash
number_from n [] = n
number_from n (b ∷ bs) = number_from (n * 256 + b) bs

unfoldable pub into_block_hash : Hash → BlockHash
unfolding number_from
into_block_hash hash = number_from 0 hash

unfoldable pub bytes_of : ℕ → BlockHash → List ℕ
bytes_of zero n = []
bytes_of (suc k) n = bytes_of k (n / 256) ++ (n % 256) ∷ []

unfoldable pub from_block_hash : BlockHash → Hash
unfolding bytes_of
from_block_hash n = bytes_of hash_bytes n

pub data HashParseError (E : Type 0) : Type 0 where
  hex_error : E → HashParseError E
  invalid_prefix : HashParseError E

-- What the visitor complains of: the value, or the length.
pub data VisitError : Type 0 where
  invalid_value : VisitError
  invalid_element : VisitError
  invalid_length : ℕ → VisitError

abbrev pub map_err : {E F A : Type 0} → (E → F) → Result E A → Result F A
map_err f (ok a) = ok a
map_err f (err e) = err (f e)

module _ (H : Hex) where
  unfoldable pub decode : List ℕ → Result (HashParseError H.FromHexError) Hash
  decode digits = map_err hex_error (H.decode_to_slice digits hash_bytes)

  unfoldable pub from_ascii : List ℕ → Result (HashParseError H.FromHexError) Hash
  unfolding decode
  from_ascii [] = err invalid_prefix
  from_ascii (c ∷ []) = err invalid_prefix
  from_ascii (c ∷ d ∷ digits) = if c == b'0' && d == b'x' then decode digits else err invalid_prefix

  unfoldable pub fmt : Hash → List ℕ
  fmt hash = b'0' ∷ b'x' ∷ H.encode_to_slice hash

  unfoldable pub visit_str : List ℕ → Result VisitError Hash
  unfolding from_ascii
  visit_str value = map_err (λ e. invalid_value) (from_ascii value)

  -- Thirty-two bytes are the hash itself, any other number is a text.
  unfoldable pub visit_bytes : List ℕ → Result VisitError Hash
  unfolding from_ascii
  visit_bytes value =
      if length value == hash_bytes
      then ok value
      else map_err (λ e. invalid_value) (from_ascii value)

-- The elements of a sequence, `none` for one that is no byte. The loop fills `n` more places, from
-- place `i` on, and then there must be no other.
unfoldable pub fill : ℕ → ℕ → List ℕ → List (Option ℕ) → Result VisitError Hash
fill i zero hash [] = ok hash
fill i zero hash (none ∷ seq) = err invalid_element
fill i zero hash (some b ∷ seq) = err (invalid_length 33)
fill i (suc n) hash [] = err (invalid_length i)
fill i (suc n) hash (none ∷ seq) = err invalid_element
fill i (suc n) hash (some b ∷ seq) = fill (suc i) n (hash ++ b ∷ []) seq

unfoldable pub visit_seq : List (Option ℕ) → Result VisitError Hash
unfolding fill
visit_seq seq = fill 0 hash_bytes [] seq
