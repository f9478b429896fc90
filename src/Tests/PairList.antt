-- ===== src/Tests/PairList.antt =====
-- An implementation of the `bimap` crate's interface: a list of pairs, each left and each right at
-- most once. The examples run on it; nothing else does.
use substation.Prelude.{
  ◌≡◌, refl, List, [], ◌∷◌, Option, none, some, Key, ◌≟◌, ite, if_pos, if_neg, arith,
}
use substation.Prelude.HashMap.{Distinct, remove-Distinct, get-remove}
use substation.Prelude.HashMap
use substation.Common.BiMap.{BiMap, without}

module _ {L R : Type 0} ⦃l : Key L⦄ ⦃r : Key R⦄ where
  abbrev pub get_right : R → List (L × R) → Option L
  get_right right [] = none
  get_right right ((a, b) ∷ m) = ite (b ≟ right) (some a) (get_right right m)

  abbrev pub remove_right : R → List (L × R) → List (L × R)
  remove_right right [] = []
  remove_right right ((a, b) ∷ m) =
      ite (b ≟ right) (remove_right right m) ((a, b) ∷ remove_right right m)

  abbrev pub Once : List (L × R) → Type 0
  Once [] = Unit
  Once ((a, b) ∷ m) = (HashMap.get a m ≡ none) × (get_right b m ≡ none) × Once m

  pub get-remove_right :
      (right : R) (other : L) (m : List (L × R))
      → Once m
      → HashMap.get other (remove_right right m) ≡ without right (HashMap.get other m)
  unfolding HashMap.get
  get-remove_right right other [] o = refl
  get-remove_right right other ((a, b) ∷ m) o =
      ground (arith, get-remove_right right other m o.2, o.0, o.1)

  pub get_right-remove_right :
      (right other : R) (m : List (L × R))
      → get_right other (remove_right right m) ≡ ite (right ≟ other) none (get_right other m)
  get_right-remove_right right other [] = ground arith
  get_right-remove_right right other ((a, b) ∷ m) =
      ground (arith, get_right-remove_right right other m)

  pub inverse_lem :
      (left : L) (right : R) (m : List (L × R))
      → Once m
      → ((HashMap.get left m ≡ some right) → (get_right right m ≡ some left))
        × ((get_right right m ≡ some left) → (HashMap.get left m ≡ some right))
  unfolding HashMap.get
  inverse_lem left right [] o = ((λ e. cc), (λ e. cc))
  inverse_lem left right ((a, b) ∷ m) o =
      let (f, g) = inverse_lem left right m o.2 in
      ((λ e. ground (arith, f, g, o.0, o.1)), (λ e. ground (arith, f, g, o.0, o.1)))

  get_right-remove :
      (left : L) (right : R) (m : List (L × R))
      → get_right right m ≡ none
      → get_right right (HashMap.remove left m) ≡ none
  unfolding HashMap.remove
  get_right-remove left right [] e = refl
  get_right-remove left right ((a, b) ∷ m) e = ground (arith, get_right-remove left right m)

  pub remove-Once : (left : L) (m : List (L × R)) → Once m → Once (HashMap.remove left m)
  unfolding HashMap.remove
  remove-Once left [] o = tt
  remove-Once left ((a, b) ∷ m) o = elim (a ≟ left) [
    | yes p ↦ rw (if_pos _ p) (remove-Once left m o.2)
    | no n ↦ rw (if_neg _ n) (
      ground (arith, get-remove left a m, o.0),
      get_right-remove left b m o.1,
      remove-Once left m o.2,
    )
  ]

  pub remove_right-Once : (right : R) (m : List (L × R)) → Once m → Once (remove_right right m)
  remove_right-Once right [] o = tt
  remove_right-Once right ((a, b) ∷ m) o = elim (b ≟ right) [
    | yes p ↦ rw (if_pos _ p) (remove_right-Once right m o.2)
    | no n ↦ rw (if_neg _ n) (
      ground (arith, get-remove_right right a m o.2, o.0),
      ground (arith, get_right-remove_right right b m, o.1),
      remove_right-Once right m o.2,
    )
  ]

  pub Once-Distinct : (m : List (L × R)) → Once m → Distinct m
  Once-Distinct [] o = tt
  Once-Distinct ((a, b) ∷ m) o = (o.0, Once-Distinct m o.2)

  abbrev pub pair_list : BiMap L R
  unfolding HashMap.get HashMap.remove
  pair_list = record {
    Map = (m : List (L × R)) × Once m;
    empty = ([], tt);
    insert = λ left right m.
        let rest = remove_right right (HashMap.remove left m.0) in
        let o = remove_right-Once right (HashMap.remove left m.0) (remove-Once left m.0 m.1) in
        (
          (left, right) ∷ rest,
          (
            ground (
              arith,
              get-remove_right right left (HashMap.remove left m.0) (remove-Once left m.0 m.1),
              get-remove left left m.0,
            ),
            ground (arith, get_right-remove_right right right (HashMap.remove left m.0)),
            o,
          ),
        );
    get_by_left = λ left m. HashMap.get left m.0;
    get_by_right = λ right m. get_right right m.0;
    remove_by_left = λ left m. (HashMap.remove left m.0, remove-Once left m.0 m.1);
    remove_by_right = λ right m. (remove_right right m.0, remove_right-Once right m.0 m.1);
    iter = λ m. m.0;
    inverse = λ left right m. inverse_lem left right m.0 m.1;
    left-empty = λ left. refl;
    left-insert = λ left other right m. ground (
      arith,
      get-remove_right right other (HashMap.remove left m.0) (remove-Once left m.0 m.1),
      get-remove left other m.0,
    );
    left-remove_by_left = λ left other m. get-remove left other m.0;
    left-remove_by_right = λ right other m. get-remove_right right other m.0 m.1;
    left-iter = λ left m. refl;
    iter-Distinct = λ m. Once-Distinct m.0 m.1;
  }
