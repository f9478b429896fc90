-- ===== src/Core/Counter/Rankings.antt =====
-- Rankings of a counter (backend/telemetry_core/src/state/counter.rs).
use mathlib.Core.List.{Perm, Permᴰ}
use mathlib.Core.List.Perm
use mathlib.Core.Logic.{∥∥₁_elim}
use native.Mathlib.Nat.{ℕ_set}
use substation.Prelude.{
  length, ◌∙◌, ap, ℕ, zero, suc, ◌≡◌, refl, Bool, true, List, [], ◌∷◌, ◌++◌, take, drop, leb, min,
  if_lem, arith, Bool-cases, inl, inr,
}
use substation.Core.Counter.{Counter, insert_sorted, sort_by, total, generate_ranking_top}

module _ {A : Type 0} where
  take-append_drop : (n : ℕ) (xs : List A) → take n xs ++ drop n xs ≡ xs
  take-append_drop zero xs = refl
  take-append_drop (suc n) [] = refl
  take-append_drop (suc n) (x ∷ xs) = ap (λ l. x ∷ l) (take-append_drop n xs)

  length-take : (n : ℕ) (xs : List A) → length (take n xs) ≡ min n (length xs)
  length-take zero xs = omega arith
  length-take (suc n) [] = omega arith
  length-take (suc n) (x ∷ xs) = omega (arith, length-take n xs)

  length-permᴰ : {xs ys : List A} → Permᴰ xs ys → length xs ≡ length ys
  length-permᴰ Permᴰ.nil = refl
  length-permᴰ (Permᴰ.cons _ p) = ap suc (length-permᴰ p)
  length-permᴰ (Permᴰ.swap _ _) = refl
  length-permᴰ (Permᴰ.trans p q) = length-permᴰ p ∙ length-permᴰ q

  length-perm : {xs ys : List A} → Perm xs ys → length xs ≡ length ys
  length-perm p = ∥∥₁_elim p (ℕ_set _ _) length-permᴰ

module _ {A : Type 0} (before : A → A → Bool) where
  -- `x` stands before or beside the whole list.
  abbrev pub Heads : A → List A → Type 0
  Heads x [] = Unit
  Heads x (y ∷ ys) = (before x y ≡ true) × Heads x ys

  abbrev pub IsSorted : List A → Type 0
  IsSorted [] = Unit
  IsSorted (x ∷ xs) = Heads x xs × IsSorted xs

module _ {K : Type 0} where
  -- Greater counts first.
  abbrev pub heavier : K × ℕ → K × ℕ → Bool
  heavier a b = leb b.1 a.1

  insert_sorted-Perm : (x : K × ℕ) (xs : List (K × ℕ)) → Perm (insert_sorted heavier x xs) (x ∷ xs)
  unfolding insert_sorted
  insert_sorted-Perm x [] = Perm.refl (x ∷ [])
  insert_sorted-Perm x (y ∷ ys) =
      if_lem (λ l. Perm l (x ∷ y ∷ ys)) (heavier x y) (λ h. Perm.refl (x ∷ y ∷ ys))
        (λ h. Perm.trans (Perm.cons y (insert_sorted-Perm x ys)) (Perm.swap x y ys))

  sort_by-Perm : (xs : List (K × ℕ)) → Perm (sort_by heavier xs) xs
  unfolding sort_by
  sort_by-Perm [] = Perm.refl []
  sort_by-Perm (x ∷ xs) =
      Perm.trans (insert_sorted-Perm x (sort_by heavier xs)) (Perm.cons x (sort_by-Perm xs))

  Heads-trans :
      (x y : K × ℕ) (xs : List (K × ℕ))
      → heavier x y ≡ true
      → Heads heavier y xs
      → Heads heavier x xs
  Heads-trans x y [] h t = tt
  Heads-trans x y (z ∷ xs) h t = (ground arith, Heads-trans x y xs h t.1)

  Heads-insert_sorted :
      (x y : K × ℕ) (xs : List (K × ℕ))
      → heavier x y ≡ true
      → Heads heavier x xs
      → Heads heavier x (insert_sorted heavier y xs)
  unfolding insert_sorted
  Heads-insert_sorted x y [] h t = (h, tt)
  Heads-insert_sorted x y (z ∷ xs) h t = elim (Bool-cases (heavier y z)) [
    | inl e ↦ rw e (h, (t.0, t.1))
    | inr e ↦ rw e (t.0, Heads-insert_sorted x y xs h t.1)
  ]

  insert_sorted-IsSorted :
      (x : K × ℕ) (xs : List (K × ℕ))
      → IsSorted heavier xs
      → IsSorted heavier (insert_sorted heavier x xs)
  unfolding insert_sorted
  insert_sorted-IsSorted x [] s = (tt, tt)
  insert_sorted-IsSorted x (y ∷ ys) s = elim (Bool-cases (heavier x y)) [
    | inl e ↦ rw e ((e, Heads-trans x y ys e s.0), (s.0, s.1))
    | inr e ↦ rw e (Heads-insert_sorted y x ys (ground arith) s.0, insert_sorted-IsSorted x ys s.1)
  ]

  sort_by-IsSorted : (xs : List (K × ℕ)) → IsSorted heavier (sort_by heavier xs)
  unfolding sort_by
  sort_by-IsSorted [] = tt
  sort_by-IsSorted (x ∷ xs) = insert_sorted-IsSorted x _ (sort_by-IsSorted xs)

  -- A top ranking splits the entries of the counter in two, none lost and none twice: what it lists,
  -- as many as asked for or all there are, and a rest. Listed and then rest stand from the greatest
  -- count down, so no count of the rest is above a listed one. The ranking has the sum of the
  -- rest, and the count of the keys not given.
  pub ranking_lem :
      (c : Counter K) (n : ℕ)
      → let r = generate_ranking_top c n in
        (rest : List (K × ℕ)) × IsSorted heavier (r.list ++ rest)
        × Perm (r.list ++ rest) c.map
        × (length r.list ≡ min n (length c.map))
        × (r.other ≡ total rest)
        × (r.unknown ≡ c.empty)
  unfolding generate_ranking_top
  ranking_lem c n =
      let all = sort_by heavier c.map in
      let whole : take n all ++ drop n all ≡ all = take-append_drop n all in
      (
        drop n all,
        rw whole (sort_by-IsSorted c.map),
        rw whole (sort_by-Perm c.map),
        length-take n all ∙ ap (min n) (length-perm (sort_by-Perm c.map)),
        refl,
        refl,
      )
