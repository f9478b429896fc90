-- ===== src/Shard/Json/Hash/Laws.antt =====
-- What backend/telemetry_shard/src/json_message/hash.rs writes it reads back.
use substation.Prelude.{
  ℕ, zero, suc, ◌+◌, ◌*◌, ◌/◌, ◌%◌, ◌<◌, ◌^◌, ◌≡◌, refl, sym, ap, ◌∙◌, List, [], ◌∷◌, ◌++◌,
  append_assoc, append-nil, some, length, map, arith,
}
use substation.Common.Types.{BlockHash}
use substation.Shard.Json.Hash.{
  ok, AreBytes, Hex, Hash, hash_bytes, number_from, into_block_hash, bytes_of, from_block_hash, fmt,
  visit_str, visit_bytes, fill, visit_seq,
}

number_from-snoc :
    (n : ℕ) (bs : List ℕ) (b : ℕ) → number_from n (bs ++ b ∷ []) ≡ number_from n bs * 256 + b
unfolding number_from
number_from-snoc n [] b = refl
number_from-snoc n (c ∷ bs) b = number_from-snoc (n * 256 + c) bs b

number_from-bytes_of : (k n : ℕ) → n < 256 ^ k → number_from 0 (bytes_of k n) ≡ n
unfolding number_from bytes_of
number_from-bytes_of zero n h = omega arith
number_from-bytes_of (suc k) n h =
    let less : n / 256 < 256 ^ k = grind arith in
    number_from-snoc 0 (bytes_of k (n / 256)) (n % 256)
    ∙ omega (arith, number_from-bytes_of k (n / 256) less)

fill-some : (i : ℕ) (start bs : List ℕ) → fill i (length bs) start (map some bs) ≡ ok (start ++ bs)
unfolding fill
fill-some i start [] = ap ok (sym (append-nil start))
fill-some i start (b ∷ bs) =
    fill-some (suc i) (start ++ b ∷ []) bs ∙ ap ok (append_assoc start (b ∷ []) bs)

module _ (H : Hex) where
  -- A hash of 32 bytes is read back from the text that it is shown as, from the bytes that it is
  -- serialized to, and from a sequence of them, and a block hash below 2 ^ 256 survives the
  -- conversion to bytes and back.
  pub hash_lem :
      (hash : Hash) (block_hash : BlockHash)
      → length hash ≡ hash_bytes
      → AreBytes hash
      → block_hash < 2 ^ 256
      → (visit_str H (fmt H hash) ≡ ok hash)
        × (visit_bytes H hash ≡ ok hash)
        × (visit_seq (map some hash) ≡ ok hash)
        × (into_block_hash (from_block_hash block_hash) ≡ block_hash)
  unfolding visit_str fmt visit_bytes visit_seq into_block_hash from_block_hash
  hash_lem hash block_hash n b small =
      let decoded : H.decode_to_slice (H.encode_to_slice hash) hash_bytes ≡ ok hash =
        ap (H.decode_to_slice (H.encode_to_slice hash)) (sym n) ∙ H.decode-encode hash b in
      (
        rw decoded refl,
        rw n refl,
        ap (λ k. fill 0 k [] (map some hash)) (sym n) ∙ fill-some 0 [] hash,
        number_from-bytes_of 32 block_hash small,
      )
