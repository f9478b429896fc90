-- ===== src/Shard/Json/OldVersion/Laws.antt =====
-- An old-style version is split into what it was joined from
-- (backend/telemetry_shard/src/json_message/node_message.rs).
use substation.Prelude.{
  ℕ, zero, suc, ◌+◌, ◌<◌, ◌^◌, ◌≡◌, refl, sym, ap, ◌∙◌, true, false, List, [], ◌∷◌, ◌++◌,
  append_assoc, some, length, length-append, drop, get_elem?, arith, leb,
}
use substation.Prelude.Text.{Text, reverse}
use substation.Prelude.Text.Laws.{IsFree, split_on-free, split_on-cons, take-append}
use substation.Shard.Json.OldVersion.{
  dash, is_version_or_hash, split, with_offsets, reverse, rsplit, get_to, get_from, less_one,
  target_offset, split_target, split_at, split_old_style_version,
}

-- A text with no dash.
abbrev pub IsPiece : Text → Type 0
IsPiece p = IsFree b'-' p

unfoldable pub ArePieces : List Text → Type 0
ArePieces [] = Unit
ArePieces (p ∷ ps) = IsPiece p × ArePieces ps

-- Each piece with a dash behind it.
unfoldable pub dashed : List Text → Text
dashed [] = []
dashed (p ∷ ps) = p ++ dash ∷ dashed ps

split-piece : (p : Text) → IsPiece p → split p ≡ p ∷ []
unfolding split
split-piece p h = split_on-free b'-' p h

split-dash : (p s : Text) → IsPiece p → split (p ++ dash ∷ s) ≡ p ∷ split s
unfolding split
split-dash p s h = split_on-cons b'-' p s dash refl h

split-dashed : (ps : List Text) (s : Text) → ArePieces ps → split (dashed ps ++ s) ≡ ps ++ split s
unfolding dashed ArePieces
split-dashed [] s h = refl
split-dashed (p ∷ ps) s (hp, h) =
    ap split (append_assoc p (dash ∷ dashed ps) s)
    ∙ split-dash p (dashed ps ++ s) hp
    ∙ ap (λ l. p ∷ l) (split-dashed ps s h)

get-append :
    {A : Type 0} (xs ys : List A) (i : ℕ) {a : A}
    → get_elem? xs i ≡ some a
    → get_elem? (xs ++ ys) i ≡ some a
get-append [] ys i e = cc
get-append (x ∷ xs) ys zero e = e
get-append (x ∷ xs) ys (suc i) e = get-append xs ys i e

-- The third item from the right, with its place.
third :
    (n : ℕ) (ps : List Text) (a b c : Text)
    → get_elem? (reverse (with_offsets n (ps ++ a ∷ b ∷ c ∷ []))) 2
      ≡ some (n + length (dashed ps), a)
unfolding with_offsets dashed
third n [] a b c = ap (λ k. some (k, a)) (omega arith)
third n (p ∷ ps) a b c =
    get-append (reverse (with_offsets (n + length p + 1) (ps ++ a ∷ b ∷ c ∷ []))) ((n, p) ∷ []) 2
      (third (n + length p + 1) ps a b c)
    ∙ ap (λ k. some (k, a)) (omega (arith, length-append p (dash ∷ dashed ps)))

drop-append : {A : Type 0} (xs ys : List A) → drop (length xs) (xs ++ ys) ≡ ys
drop-append [] ys = refl
drop-append (x ∷ xs) ys = drop-append xs ys

get_to-append : (xs ys : Text) → get_to (xs ++ ys) (length xs) ≡ some xs
unfolding get_to
get_to-append xs ys =
    let fits : leb (length xs) (length (xs ++ ys)) ≡ true = ground (arith, length-append xs ys) in
    rw fits (ap some (take-append xs ys))

get_from-append : (xs ys : Text) → get_from (xs ++ ys) (length xs) ≡ some ys
unfolding get_from
get_from-append xs ys =
    let fits : leb (length xs) (length (xs ++ ys)) ≡ true = ground (arith, length-append xs ys) in
    rw fits (ap some (drop-append xs ys))

-- A cut at a dash.
split_at-dash :
    (version target : Text)
    → length version + 1 < 2 ^ 64
    → split_at (version ++ dash ∷ target) (length version + 1) ≡ split_target version (split target)
unfolding split_at
split_at-dash version target h =
    let n : less_one (length version + 1) ≡ length version = unfold less_one in omega arith in
    let to : get_to (version ++ dash ∷ target) (less_one (length version + 1)) ≡ some version =
      ap (get_to (version ++ dash ∷ target)) n ∙ get_to-append version (dash ∷ target) in
    let whole = append_assoc version (dash ∷ []) target in
    let from : get_from (version ++ dash ∷ target) (length version + 1) ≡ some target =
      ap (get_from (version ++ dash ∷ target)) (omega (arith, length-append version (dash ∷ [])))
      ∙ ap (λ s. get_from s (length (version ++ dash ∷ []))) (sym whole)
      ∙ get_from-append (version ++ dash ∷ []) target in
    rw (to, split_at, from) refl

-- A version text, of pieces that a last one ends.
abbrev pub joined : List Text → Text → Text
joined ps last = dashed ps ++ last

split-joined :
    (ps : List Text) (last target : Text)
    → ArePieces ps
    → IsPiece last
    → split (joined ps last ++ dash ∷ target) ≡ ps ++ last ∷ split target
split-joined ps last target h hl =
    ap split (append_assoc (dashed ps) last (dash ∷ target))
    ∙ split-dashed ps (last ++ dash ∷ target) h
    ∙ ap (λ l. ps ++ l) (split-dash last target hl)

-- Without an environment the third piece from the right is the last of the version, with one it is the
-- architecture. Either way the target starts behind the version.
split_by :
    (whole version target : Text) (item : ℕ × Text) (pieces : List Text)
    → whole ≡ version ++ dash ∷ target
    → get_elem? (rsplit whole) 2 ≡ some item
    → target_offset item.0 item.1 ≡ length version + 1
    → split target ≡ pieces
    → length version + 1 < 2 ^ 64
    → split_old_style_version whole ≡ split_target version pieces
unfolding split_old_style_version
split_by whole version target item pieces e at offset cut fits =
    rw (at, split_old_style_version)
      (ap (split_at whole) offset
        ∙ ap (λ s. split_at s (length version + 1)) e
        ∙ split_at-dash version target fits
        ∙ ap (split_target version) cut)

without_env :
    (ps : List Text) (last arch os : Text)
    → ArePieces ps
    → IsPiece last
    → IsPiece arch
    → IsPiece os
    → is_version_or_hash last ≡ true
    → length (joined ps last) + 1 < 2 ^ 64
    → split_old_style_version (joined ps last ++ dash ∷ (arch ++ dash ∷ os))
      ≡ some (joined ps last, arch, os, [])
unfolding rsplit target_offset split_target
without_env ps last arch os h hl ha ho v fits =
    let target = arch ++ dash ∷ os in
    let cut = split-dash arch os ha ∙ ap (λ l. arch ∷ l) (split-piece os ho) in
    let at =
      ap (λ l. get_elem? (reverse (with_offsets 0 l)) 2)
        (split-joined ps last target h hl ∙ ap (λ l. ps ++ last ∷ l) cut)
      ∙ third 0 ps last arch os in
    split_by (joined ps last ++ dash ∷ target) (joined ps last) target
      (0 + length (dashed ps), last) (arch ∷ os ∷ []) refl at
      (rw v (omega (arith, length-append (dashed ps) last))) cut fits

dashed-append : (ps qs : List Text) → dashed (ps ++ qs) ≡ dashed ps ++ dashed qs
unfolding dashed
dashed-append [] qs = refl
dashed-append (p ∷ ps) qs =
    ap (λ l. p ++ dash ∷ l) (dashed-append ps qs)
    ∙ sym (append_assoc p (dash ∷ dashed ps) (dashed qs))

with_env :
    (ps : List Text) (last arch os env : Text)
    → ArePieces ps
    → IsPiece last
    → IsPiece arch
    → IsPiece os
    → IsPiece env
    → is_version_or_hash arch ≡ false
    → length (joined ps last) + 1 < 2 ^ 64
    → split_old_style_version (joined ps last ++ dash ∷ (arch ++ dash ∷ (os ++ dash ∷ env)))
      ≡ some (joined ps last, arch, os, env)
unfolding rsplit target_offset split_target dashed
with_env ps last arch os env h hl ha ho he v fits =
    let target = arch ++ dash ∷ (os ++ dash ∷ env) in
    let cut =
      split-dash arch (os ++ dash ∷ env) ha
      ∙ ap (λ l. arch ∷ l) (split-dash os env ho ∙ ap (λ l. os ∷ l) (split-piece env he)) in
    let at =
      ap (λ l. get_elem? (reverse (with_offsets 0 l)) 2)
        (split-joined ps last target h hl
          ∙ ap (λ l. ps ++ last ∷ l) cut
          ∙ sym (append_assoc ps (last ∷ []) (arch ∷ os ∷ env ∷ [])))
      ∙ third 0 (ps ++ last ∷ []) arch os env in
    let place : length (dashed (ps ++ last ∷ [])) ≡ length (joined ps last) + 1 =
      ap length (dashed-append ps (last ∷ []))
      ∙ omega (
        arith,
        length-append (dashed ps) (last ++ dash ∷ []),
        length-append last (dash ∷ []),
        length-append (dashed ps) last,
      ) in
    split_by (joined ps last ++ dash ∷ target) (joined ps last) target
      (0 + length (dashed (ps ++ last ∷ [])), arch) (arch ∷ os ∷ env ∷ []) refl at
      (rw v (omega (arith, place))) cut fits

-- A version whose last part is a number or a hash, followed by an architecture that is neither, a system
-- and perhaps an environment, with dashes between, is split into these, and the version is all that
-- stood before the architecture, dashes included.
pub split_old_style_version_lem :
    (ps : List Text) (last arch os env : Text)
    → ArePieces (last ∷ arch ∷ os ∷ env ∷ ps)
    → is_version_or_hash last ≡ true
    → is_version_or_hash arch ≡ false
    → length (joined ps last) + 1 < 2 ^ 64
    → (split_old_style_version (joined ps last ++ dash ∷ (arch ++ dash ∷ os))
        ≡ some (joined ps last, arch, os, []))
      × (split_old_style_version (joined ps last ++ dash ∷ (arch ++ dash ∷ (os ++ dash ∷ env)))
          ≡ some (joined ps last, arch, os, env))
unfolding ArePieces
split_old_style_version_lem ps last arch os env (hl, (ha, (ho, (he, h)))) v w fits = (
  without_env ps last arch os h hl ha ho v fits,
  with_env ps last arch os env h hl ha ho he w fits,
)
