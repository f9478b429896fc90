-- ===== src/Shard/Json/OldVersion.antt =====
-- backend/telemetry_shard/src/json_message/node_message.rs, `split_old_style_version`. A text is the list
-- of its characters, and an offset counts them; the code's offsets count bytes, but all of them are
-- beside a `-` or at an end, so they cut the text at the same places.
pub mod Laws
use Prim.Native.Char.{Char, code, char}
use substation.Prelude.Text.{Text, chars, text, split_on, reverse}
use substation.Prelude.{
  ℕ, suc, ◌+◌, ◌-◌, ◌%◌, ◌^◌, Bool, true, false, ◌&&◌, ◌||◌, String, ◌≡◌, refl, List, [], ◌∷◌, ◌++◌,
  Option, none, some, length, take, drop, get_elem?, ltb, leb, ◌==◌, if◌then◌else◌,
}

abbrev pub dash : Char
dash = char b'-' tt

-- A digit, a `.`, or a letter from `a` to `f`.
abbrev pub is_version_char : Char → Bool
is_version_char c =
    leb b'0' (code c) && leb (code c) b'9'
    || code c == b'.'
    || leb b'a' (code c) && leb (code c) b'f'

unfoldable pub is_version_or_hash : Text → Bool
is_version_or_hash [] = true
is_version_or_hash (c ∷ cs) = is_version_char c && is_version_or_hash cs

unfoldable pub split : Text → List Text
unfolding split_on
split s = split_on b'-' s

-- The pieces with the offsets at which they start.
unfoldable pub with_offsets : ℕ → List Text → List (ℕ × Text)
with_offsets n [] = []
with_offsets n (piece ∷ pieces) = (n, piece) ∷ with_offsets (n + length piece + 1) pieces

-- `str::rsplit`, with what the pointers of its items say of their places.
unfoldable pub rsplit : Text → List (ℕ × Text)
unfolding split with_offsets
rsplit s = reverse (with_offsets 0 (split s))

-- `str::get` at `0..end` and at `start..`.
unfoldable pub get_to : Text → ℕ → Option Text
get_to s end = if leb end (length s) then some (take end s) else none

unfoldable pub get_from : Text → ℕ → Option Text
get_from s start = if leb start (length s) then some (drop start s) else none

-- The subtraction wraps in the release build.
unfoldable pub less_one : ℕ → ℕ
less_one n = (n + 2 ^ 64 - 1) % 2 ^ 64

-- Where the target starts, by the third piece from the right.
unfoldable pub target_offset : ℕ → Text → ℕ
unfolding is_version_or_hash
target_offset offset item = if is_version_or_hash item then offset + length item + 1 else offset

-- The architecture and the system must be there, the environment need not.
unfoldable pub split_target : Text → List Text → Option (Text × Text × Text × Text)
split_target version (target_arch ∷ target_os ∷ []) = some (version, target_arch, target_os, [])
split_target version (target_arch ∷ target_os ∷ target_env ∷ _) =
    some (version, target_arch, target_os, target_env)
split_target version _ = none

unfoldable pub split_at : Text → ℕ → Option (Text × Text × Text × Text)
unfolding get_to get_from less_one split_target
split_at s offset = elim (get_to s (less_one offset)) [
  | none ↦ none
  | some version ↦ elim (get_from s offset) [
    | none ↦ none
    | some target ↦ split_target version (split target)
  ]
]

-- `take(3).skip(2)` and `next` give the item at index 2.
unfoldable pub split_old_style_version : Text → Option (Text × Text × Text × Text)
unfolding rsplit target_offset split_at
split_old_style_version s = elim (get_elem? (rsplit s) 2) [
  | none ↦ none
  | some (offset, item) ↦ split_at s (target_offset offset item)
]

-- The examples of the comment in the source.
abbrev shown : String → Option (String × String × String × String)
shown s = elim (split_old_style_version (chars s)) [
  | none ↦ none
  | some (version, arch, os, env) ↦ some (text version, text arch, text os, text env)
]

with_all :
    shown "0.9.17-75dd6c7d0-x86_64-linux-gnu" ≡ some ("0.9.17-75dd6c7d0", "x86_64", "linux", "gnu")
unfolding split_old_style_version
with_all = refl

without_env :
    shown "0.9.17-75dd6c7d0-x86_64-linux" ≡ some ("0.9.17-75dd6c7d0", "x86_64", "linux", "")
unfolding split_old_style_version
without_env = refl

without_hash : shown "0.9.17-x86_64-linux-gnu" ≡ some ("0.9.17", "x86_64", "linux", "gnu")
unfolding split_old_style_version
without_hash = refl

without_both : shown "0.9.17-x86_64-linux" ≡ some ("0.9.17", "x86_64", "linux", "")
unfolding split_old_style_version
without_both = refl

alpha :
    shown "2.0.0-alpha.5-da487d19d-x86_64-linux"
    ≡ some ("2.0.0-alpha.5-da487d19d", "x86_64", "linux", "")
unfolding split_old_style_version
alpha = refl

too_few : shown "0.9.17-linux" ≡ none
unfolding split_old_style_version
too_few = refl

no_version : shown "x86_64-linux-gnu" ≡ none
unfolding split_old_style_version
no_version = refl
