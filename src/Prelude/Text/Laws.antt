-- ===== src/Prelude/Text/Laws.antt =====
-- What `split` of `str` does to a text of known pieces.
use Prim.Native.Char.{Char, code}
use substation.Prelude.{
  ℕ, ◌≡◌, refl, true, false, List, [], ◌∷◌, ◌++◌, ap, length, take, ◌==◌, Option, none, some, Bool,
  subst, if◌then◌else◌,
}
use substation.Prelude.Text.{Text, split_on, chars, text, cut_at, onto_key}

-- The character does not stand in the text.
unfoldable pub IsFree : ℕ → Text → Type 0
IsFree sep [] = Unit
IsFree sep (c ∷ cs) = ((code c == sep) ≡ false) × IsFree sep cs

pub split_on-free : (sep : ℕ) (p : Text) → IsFree sep p → split_on sep p ≡ p ∷ []
unfolding split_on IsFree
split_on-free sep [] h = refl
split_on-free sep (c ∷ cs) (e, h) = rw (e, split_on-free sep cs h) refl

pub split_on-cons :
    (sep : ℕ) (p s : Text) (c : Char)
    → (code c == sep) ≡ true
    → IsFree sep p
    → split_on sep (p ++ c ∷ s) ≡ p ∷ split_on sep s
unfolding split_on IsFree
split_on-cons sep [] s c is h = rw is refl
split_on-cons sep (d ∷ cs) s c is (e, h) = rw (e, split_on-cons sep cs s c is h) refl

pub take-append : {A : Type 0} (xs ys : List A) → take (length xs) (xs ++ ys) ≡ xs
take-append [] ys = refl
take-append (x ∷ xs) ys = ap (λ l. x ∷ l) (take-append xs ys)

pub chars-text : (s : Text) → chars (text s) ≡ s
chars-text [] = refl
chars-text (c ∷ cs) = ap (λ l. c ∷ l) (chars-text cs)

-- A text cut at its first separator.
pub data Cut (sep : ℕ) : Text → Text → Text → Type 0 where
  cut :
      (key : Text) (c : Char) (value : Text)
      → (code c == sep) ≡ true
      → IsFree sep key
      → Cut sep (key ++ c ∷ value) key value

pub cut_at-Cut :
    (sep : ℕ) {s key value : Text} → Cut sep s key value → cut_at sep s ≡ some (key, value)
unfolding cut_at IsFree
cut_at-Cut sep (cut [] c value is h) = rw is refl
cut_at-Cut sep (cut (d ∷ cs) c value is (e, h)) = rw (e, cut_at-Cut sep (cut cs c value is h)) refl

Cut-snoc :
    (sep : ℕ) (c : Char) {s key value : Text}
    → (code c == sep) ≡ false
    → Cut sep s key value
    → Cut sep (c ∷ s) (c ∷ key) value
unfolding IsFree
Cut-snoc sep c not (cut key d value is h) = cut (c ∷ key) d value is (not, h)

pub Cut-cut_at :
    (sep : ℕ) (s key value : Text) → cut_at sep s ≡ some (key, value) → Cut sep s key value
unfolding cut_at IsFree
Cut-cut_at sep [] key value e = cc
Cut-cut_at sep (c ∷ cs) key value e =
    by_head (code c == sep) refl (cut_at sep cs) refl (Cut-cut_at sep cs) e
  where
    as_pair :
        (s : Text) {p q : Text × Text} → some p ≡ some q → Cut sep s p.0 p.1 → Cut sep s q.0 q.1
    as_pair s {p = p} {q = q} h k = let same : p ≡ q = cc in subst (λ r. Cut sep s r.0 r.1) same k

    by_head :
        (b : Bool)
        → (code c == sep) ≡ b
        → (rest : Option (Text × Text)) → cut_at sep cs ≡ rest
        → ((k v : Text) → cut_at sep cs ≡ some (k, v) → Cut sep cs k v)
        → (if b then some ([], cs) else onto_key c rest) ≡ some (key, value)
        → Cut sep (c ∷ cs) key value
    by_head true is rest r f h = as_pair (c ∷ cs) h (cut [] c cs is tt)
    by_head false not none r f h = cc
    by_head false not (some (k, v)) r f h = as_pair (c ∷ cs) h (Cut-snoc sep c not (f k v r))
