-- ===== src/Common/DenseMap/Laws.antt =====
-- The laws of `DenseMap`: which slots are free, what the operations do to them, and what they keep.
use substation.Prelude.{
  Option-cases, inl, inr, ℕ, zero, suc, ◌+◌, ◌≤◌, ◌≡◌, refl, List, [], ◌∷◌, ◌++◌, Option, none,
  some, length, get_elem?, set, count, ite, ◌≟◌, nat_key, arith, get_elem?-set, get_elem?-snoc,
  get_elem?-length, length-set, length-append,
}
use substation.Common.DenseMap.{DenseMap, new, add, get, put, remove, len, next_id}

module _ {ℓ} {T : Type ℓ} where
  abbrev pub occupied : List (Option T) → ℕ
  occupied [] = 0
  occupied (none ∷ xs) = occupied xs
  occupied (some x ∷ xs) = suc (occupied xs)

  -- 1 for a slot that is there and free.
  abbrev pub free : Option (Option T) → ℕ
  free (some none) = 1
  free _ = 0

  -- `retired` lists each free slot once, and nothing else.
  pub record IsValid (m : DenseMap T) : Type ℓ where
    pub vacancy : (i : ℕ) → count i m.retired ≡ free (get_elem? m.items i)
    pub counted : length m.retired + occupied m.items ≡ length m.items

  pub occupied-snoc :
      (xs : List (Option T)) (x : T) → occupied (xs ++ some x ∷ []) ≡ occupied xs + 1
  occupied-snoc [] x = refl
  occupied-snoc (none ∷ xs) x = occupied-snoc xs x
  occupied-snoc (some y ∷ xs) x = omega (arith, occupied-snoc xs x)

  weight : Option T → ℕ
  weight none = 0
  weight (some x) = 1

  occupied-set :
      (xs : List (Option T)) (i : ℕ) (o new : Option T)
      → get_elem? xs i ≡ some o
      → occupied (set xs i new) + weight o ≡ occupied xs + weight new
  unfolding weight
  occupied-set [] i o n h = cc
  occupied-set (x ∷ xs) zero o n h = ground arith
  occupied-set (none ∷ xs) (suc i) o n h = occupied-set xs i o n h
  occupied-set (some x ∷ xs) (suc i) o n h = ground (arith, occupied-set xs i o n h)

  pub new-IsValid : IsValid (new {T = T})
  unfolding new
  new-IsValid = record { vacancy = λ i. refl; counted = refl }

  -- A listed id is a free slot.
  pub retired-free :
      (m : DenseMap T) (i : ℕ) (rest : List ℕ)
      → IsValid m
      → m.retired ≡ i ∷ rest
      → get_elem? m.items i ≡ some none
  retired-free m i rest v h = ground (arith, v.vacancy i)

  -- `add` stores the item under the id that it returns, and touches no other id.
  get-add_cases :
      (m : DenseMap T) (x : T) (j : ℕ) (r : List ℕ)
      → IsValid m
      → m.retired ≡ r
      → get (add m x).0 j ≡ ite ((add m x).1 ≟ j) (some x) (get m j)
  unfolding get add
  get-add_cases m x j [] v h = ground (arith, get_elem?-snoc m.items j (some x))
  get-add_cases m x j (i ∷ rest) v h =
      ground (arith, retired-free m i rest v h, get_elem?-set m.items i j (some x) none)

  -- In a valid map an addition puts the item under the id that it returns, and every other id
  -- keeps what it had, so a reused slot takes nothing from another.
  pub get-add :
      (m : DenseMap T) (x : T) (j : ℕ)
      → IsValid m
      → get (add m x).0 j ≡ ite ((add m x).1 ≟ j) (some x) (get m j)
  get-add m x j v = get-add_cases m x j m.retired v refl

  vacancy-add :
      (m : DenseMap T) (x : T) (j : ℕ) (r : List ℕ)
      → IsValid m
      → m.retired ≡ r
      → count j (add m x).0.retired ≡ free (get_elem? (add m x).0.items j)
  unfolding add
  vacancy-add m x j [] v h =
      ground (arith, v.vacancy j, get_elem?-snoc m.items j (some x), get_elem?-length m.items j)
  vacancy-add m x j (i ∷ rest) v h =
      ground
        (arith, v.vacancy j, retired-free m i rest v h, get_elem?-set m.items i j (some x) none)

  counted-add :
      (m : DenseMap T) (x : T) (r : List ℕ)
      → IsValid m
      → m.retired ≡ r
      → length (add m x).0.retired + occupied (add m x).0.items ≡ length (add m x).0.items
  unfolding add weight
  counted-add m x [] v h =
      ground (arith, occupied-snoc m.items x, length-append m.items (some x ∷ []))
  counted-add m x (i ∷ rest) v h = ground (
    arith,
    retired-free m i rest v h,
    occupied-set m.items i none (some x),
    length-set m.items i (some x),
  )

  occupied-add :
      (m : DenseMap T) (x : T) (r : List ℕ)
      → IsValid m
      → m.retired ≡ r
      → occupied (add m x).0.items ≡ occupied m.items + 1
  unfolding add weight
  occupied-add m x [] v h = ground (arith, occupied-snoc m.items x)
  occupied-add m x (i ∷ rest) v h =
      ground (arith, retired-free m i rest v h, occupied-set m.items i none (some x))

  -- An addition keeps a map valid: the retired ids are distinct and are exactly the empty slots.
  pub add-IsValid : (m : DenseMap T) (x : T) → IsValid m → IsValid (add m x).0
  add-IsValid m x v = record {
    vacancy = λ j. vacancy-add m x j m.retired v refl;
    counted = counted-add m x m.retired v refl;
  }

  -- The id that `add` returns is `next_id`, and held nothing.
  add-fresh_cases :
      (m : DenseMap T) (x : T) (r : List ℕ)
      → IsValid m
      → m.retired ≡ r
      → ((add m x).1 ≡ next_id m) × (get m (add m x).1 ≡ none)
  unfolding add get next_id
  add-fresh_cases m x [] v h = ground (arith, get_elem?-length m.items (length m.items))
  add-fresh_cases m x (i ∷ rest) v h = ground (arith, retired-free m i rest v h)

  -- In a valid map the id that an addition returns is the one that `next_id` announced, and
  -- nothing was under it before.
  pub add-fresh :
      (m : DenseMap T) (x : T) → IsValid m → ((add m x).1 ≡ next_id m) × (get m (add m x).1 ≡ none)
  add-fresh m x v = add-fresh_cases m x m.retired v refl

  -- In a valid map the subtraction in `len` does not go below 0, and `len` is the number of
  -- occupied slots.
  pub len-occupied :
      (m : DenseMap T)
      → IsValid m
      → (length m.retired ≤ length m.items) × (len m ≡ occupied m.items)
  unfolding len
  len-occupied m v = omega arith

  pub len-add : (m : DenseMap T) (x : T) → IsValid m → len (add m x).0 ≡ len m + 1
  len-add m x v = omega (
    arith,
    len-occupied m v,
    len-occupied (add m x).0 (add-IsValid m x v),
    occupied-add m x m.retired v refl,
  )

  pub get-slot :
      (m : DenseMap T) (i : ℕ) (x : T) → get m i ≡ some x → get_elem? m.items i ≡ some (some x)
  unfolding get
  get-slot m i x h = ground arith

  -- A removal returns what was under the id, leaves nothing under it, and changes no other id.
  pub get-remove :
      (m : DenseMap T) (i j : ℕ)
      → ((remove m i).1 ≡ get m i) × (get (remove m i).0 j ≡ ite (i ≟ j) none (get m j))
  unfolding get remove
  get-remove m i j = elim (Option-cases (get m i)) [
    | inl e ↦ ground arith
    | inr (x, e) ↦ ground (arith, get-slot m i x e, get_elem?-set m.items i j none (some x))
  ]

  -- A removal, of whatever id, keeps a map valid.
  pub remove-IsValid : (m : DenseMap T) (i : ℕ) → IsValid m → IsValid (remove m i).0
  unfolding remove weight
  remove-IsValid m i v = elim (Option-cases (get m i)) [
    | inl e ↦ rw (e, remove) v
    | inr (x, e) ↦
        rw (e, remove)
          (record {
            vacancy = λ j.
                ground
                  (arith, v.vacancy j, get-slot m i x e, get_elem?-set m.items i j none (some x));
            counted = ground (
              arith,
              v.counted,
              get-slot m i x e,
              occupied-set m.items i (some x) none,
              length-set m.items i none,
            );
          })
  ]

  pub len-remove :
      (m : DenseMap T) (i : ℕ)
      → IsValid m
      → len (remove m i).0 + elim (get m i) [ none ↦ 0 | some _ ↦ 1 ] ≡ len m
  unfolding remove weight
  len-remove m i v = elim (Option-cases (get m i)) [
    | inl e ↦ rw (e, remove) (omega arith)
    | inr (x, e) ↦
        let slot = get-slot m i x e in
        let n = occupied-set m.items i (some x) none slot in
        let w = len-occupied _ (remove-IsValid m i v) in ground (arith, len-occupied m v, n, w)
  ]

  -- A write through `get_mut` changes that slot only, and keeps the map valid.
  pub get-put :
      (m : DenseMap T) (i j : ℕ) (x old : T)
      → get m i ≡ some old
      → get (put m i x) j ≡ ite (i ≟ j) (some x) (get m j)
  unfolding get put
  get-put m i j x old h =
      ground (arith, get_elem?-set m.items i j (some x) (some old), get-slot m i old h)

  pub put-IsValid :
      (m : DenseMap T) (i : ℕ) (x old : T) → get m i ≡ some old → IsValid m → IsValid (put m i x)
  unfolding put weight
  put-IsValid m i x old h v = record {
    vacancy = λ j.
        ground
          (arith, v.vacancy j, get-slot m i old h, get_elem?-set m.items i j (some x) (some old));
    counted = ground (
      arith,
      v.counted,
      get-slot m i old h,
      occupied-set m.items i (some old) (some x),
      length-set m.items i (some x),
    );
  }

  -- From a valid map an addition keeps the map valid, returns the id that `next_id` announced and under
  -- which nothing was, puts the item there, leaves every other id as it was, so that a reused slot
  -- takes nothing from another, and makes the map longer by one.
  pub add_lem :
      (m : DenseMap T) (x : T) (j : ℕ)
      → IsValid m
      → IsValid (add m x).0
        × ((add m x).1 ≡ next_id m)
        × (get m (add m x).1 ≡ none)
        × (get (add m x).0 j ≡ ite ((add m x).1 ≟ j) (some x) (get m j))
        × (len (add m x).0 ≡ len m + 1)
  add_lem m x j v =
      let (next, fresh) = add-fresh m x v in
      (add-IsValid m x v, next, fresh, get-add m x j v, len-add m x v)

  -- From a valid map a removal, of whatever id, keeps the map valid, returns what was under the id,
  -- leaves nothing there and every other id as it was, and makes the map shorter by one where
  -- something was there.
  pub remove_lem :
      (m : DenseMap T) (i j : ℕ)
      → IsValid m
      → IsValid (remove m i).0
        × ((remove m i).1 ≡ get m i)
        × (get (remove m i).0 j ≡ ite (i ≟ j) none (get m j))
        × (len (remove m i).0 + elim (get m i) [ none ↦ 0 | some _ ↦ 1 ] ≡ len m)
  remove_lem m i j v =
      let (was, after) = get-remove m i j in (remove-IsValid m i v, was, after, len-remove m i v)
