-- ===== src/Shard/RealIp/Laws.antt =====
-- Which address the `Forwarded` header gives (backend/telemetry_shard/src/real_ip.rs).
use Prim.Native.Char.{Char, char}
use substation.Prelude.{
  ◌≡◌, refl, sym, ap, ◌∙◌, true, false, List, [], ◌∷◌, ◌++◌, append_assoc, append-nil, some, ◌&&◌,
  ◌+◌, ◌-◌, length, length-append, ltb, arith,
}
use substation.Prelude.Outcome.{Outcome, ret, panic, ◌>>=◌}
use substation.Prelude.Text.{cut_at, Text, split_on, trim, onto_first, reverse}
use substation.Prelude.Text.Laws.{IsFree, split_on-free, split_on-cons, take-append}
use substation.Shard.RealIp.{
  first_of, first_piece, is_for, strip_quotes, starts_with_quote, for_addr,
  get_first_addr_from_forwarded_header,
}

abbrev pub semicolon : Char
semicolon = char b';' tt

abbrev pub comma : Char
comma = char b',' tt

-- A pair that stands in one header value, with the key and value that it is read as.
pub record Reads (pair key value : Text) : Type 0 where
  pub no_comma : IsFree b',' pair
  pub no_semicolon : IsFree b';' pair
  pub cut : cut_at b'=' (trim pair) ≡ some (key, value)

-- Pairs with keys other than "for".
pub data Others : List Text → Type 0 where
  no_more : Others []
  other :
      (pair key value : Text) {pairs : List Text}
      → Reads pair key value
      → is_for key ≡ false
      → Others pairs
      → Others (pair ∷ pairs)

-- Each pair with a semicolon behind it.
unfoldable pub listed : List Text → Text
listed [] = []
listed (p ∷ ps) = p ++ semicolon ∷ listed ps

-- What may follow the pair.
pub data Ends : Text → Type 0 where
  at_end : Ends []
  at_comma : (s : Text) → Ends (comma ∷ s)
  at_semicolon : (s : Text) → Ends (semicolon ∷ s)

-- The value of a header up to its first comma.
first_piece-free :
    (p s : Text) → IsFree b',' p → first_piece b',' (p ++ s) ≡ p ++ first_piece b',' s
unfolding first_piece split_on IsFree
first_piece-free [] s h = refl
first_piece-free (c ∷ cs) s (e, h) =
    rw e (onto c (split_on b',' (cs ++ s)) ∙ ap (λ l. c ∷ l) (first_piece-free cs s h))
  where
    onto : (c : Char) (ps : List Text) → first_of (onto_first c ps) ≡ c ∷ first_of ps
    onto c [] = refl
    onto c (p ∷ ps) = refl

-- The pairs that are read of a value: those before, the pair, and some after.
for_addr-found :
    (pairs more : List Text) (pair key value : Text)
    → Others pairs
    → Reads pair key value
    → is_for key ≡ true
    → for_addr (pairs ++ pair ∷ more) ≡ (strip_quotes value >>= λ addr. ret (some addr))
unfolding for_addr
for_addr-found [] more pair key value no_more r f = rw (r.cut, for_addr, f) refl
for_addr-found (p ∷ pairs) more pair key value (other q k v s g os) r f =
    rw (s.cut, for_addr, g) (for_addr-found pairs more pair key value os r f)

after_semicolon : (s : Text) → first_piece b',' (semicolon ∷ s) ≡ semicolon ∷ first_piece b',' s
unfolding first_piece split_on
after_semicolon s = onto (split_on b',' s)
  where
    onto : (ps : List Text) → first_of (onto_first semicolon ps) ≡ semicolon ∷ first_of ps
    onto [] = refl
    onto (p ∷ ps) = refl

listed-pieces :
    (pairs : List Text) (s : Text)
    → Others pairs
    → (first_piece b',' (listed pairs ++ s) ≡ listed pairs ++ first_piece b',' s)
      × (split_on b';' (listed pairs ++ s) ≡ pairs ++ split_on b';' s)
unfolding listed
listed-pieces [] s no_more = (refl, refl)
listed-pieces (p ∷ pairs) s (other q k v r g os) =
    let (first, cut) = listed-pieces pairs s os in
    let whole = append_assoc p (semicolon ∷ listed pairs) s in
    (
      ap (first_piece b',') whole
          ∙ first_piece-free p (semicolon ∷ (listed pairs ++ s)) r.no_comma
          ∙ ap (λ l. p ++ l) (after_semicolon (listed pairs ++ s) ∙ ap (λ l. semicolon ∷ l) first)
          ∙ sym (append_assoc p (semicolon ∷ listed pairs) (first_piece b',' s)),
      ap (split_on b';') whole
          ∙ split_on-cons b';' p (listed pairs ++ s) semicolon refl r.no_semicolon
          ∙ ap (λ l. p ∷ l) cut,
    )

-- What of the rest is left before the first comma.
pair_pieces :
    (pair key value rest : Text)
    → Reads pair key value
    → Ends rest
    → (more : List Text) × (split_on b';' (first_piece b',' (pair ++ rest)) ≡ pair ∷ more)
unfolding first_piece split_on
pair_pieces pair key value [] r at_end = (
  [],
  ap (split_on b';') (first_piece-free pair [] r.no_comma ∙ append-nil pair)
      ∙ split_on-free b';' pair r.no_semicolon,
)
pair_pieces pair key value (c ∷ s) r (at_comma t) = (
  [],
  ap (split_on b';') (first_piece-free pair (comma ∷ t) r.no_comma ∙ append-nil pair)
      ∙ split_on-free b';' pair r.no_semicolon,
)
pair_pieces pair key value (c ∷ s) r (at_semicolon t) = (
  split_on b';' (first_piece b',' t),
  ap (split_on b';')
        (first_piece-free pair (semicolon ∷ t) r.no_comma ∙ ap (λ l. pair ++ l) (after_semicolon t))
      ∙ split_on-cons b';' pair (first_piece b',' t) semicolon refl r.no_semicolon,
)

abbrev pub quote : Char
quote = char 34 tt

-- What a value stands for: without its quotes if they surround it, and a panic if it is one quote.
pub data StandsFor : Text → Outcome Text → Type 0 where
  plain :
      (value : Text)
      → (starts_with_quote value && starts_with_quote (reverse value)) ≡ false
      → StandsFor value (ret value)
  quoted : (addr : Text) → StandsFor (quote ∷ (addr ++ quote ∷ [])) (ret addr)
  lone : StandsFor (quote ∷ []) panic

reverse-snoc : (cs : Text) (c : Char) → reverse (cs ++ c ∷ []) ≡ c ∷ reverse cs
reverse-snoc [] c = refl
reverse-snoc (d ∷ cs) c = ap (λ l. l ++ d ∷ []) (reverse-snoc cs c)

strip_quotes_lem :
    (value : Text) (result : Outcome Text) → StandsFor value result → strip_quotes value ≡ result
unfolding strip_quotes
strip_quotes_lem value result (plain v e) = rw e refl
strip_quotes_lem value result lone = refl
strip_quotes_lem value result (quoted addr) =
    let last : reverse (quote ∷ (addr ++ quote ∷ [])) ≡ quote ∷ (reverse addr ++ quote ∷ []) =
      ap (λ l. l ++ quote ∷ []) (reverse-snoc addr quote) in
    let size : length (addr ++ quote ∷ []) ≡ length addr + 1 = length-append addr (quote ∷ []) in
    let long : ltb (length (quote ∷ (addr ++ quote ∷ []))) 2 ≡ false = ground (arith, size) in
    let inner : length (quote ∷ (addr ++ quote ∷ [])) - 2 ≡ length addr = omega (arith, size) in
    rw (last, long, inner) (ap ret (take-append addr (quote ∷ [])))

-- The `Forwarded` header: the value of the first "for" before the first comma is taken, whatever pairs
-- with other keys stand before it and whatever follows, and without the quotes that surround it. Where
-- it is one quote the code panics.
pub forwarded_lem :
    (pairs : List Text) (pair key value rest : Text) (result : Outcome Text)
    → Others pairs
    → Reads pair key value
    → is_for key ≡ true
    → Ends rest
    → StandsFor value result
    → get_first_addr_from_forwarded_header (listed pairs ++ (pair ++ rest))
      ≡ (result >>= λ addr. ret (some addr))
unfolding get_first_addr_from_forwarded_header
forwarded_lem pairs pair key value rest result os r f ends stands =
    let (first, _) = listed-pieces pairs (pair ++ rest) os in
    let (_, cut) = listed-pieces pairs (first_piece b',' (pair ++ rest)) os in
    let (more, split) = pair_pieces pair key value rest r ends in
    ap for_addr (ap (split_on b';') first ∙ cut ∙ ap (λ l. pairs ++ l) split)
    ∙ for_addr-found pairs more pair key value os r f
    ∙ ap (λ o. o >>= λ addr. ret (some addr)) (strip_quotes_lem value result stands)
