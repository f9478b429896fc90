-- ===== src/Common/MostSeen/Laws.antt =====
-- `MostSeen` counts what was inserted and not removed, and its best item has the highest count.
use substation.Prelude.{
  ◌∙◌, ◌≢◌, ℕ, ◌+◌, ◌-◌, ◌≤◌, ◌≡◌, inl, inr, refl, Option, none, some, ltb, ite, Key, ◌≟◌, arith,
  Bool-cases,
}
use substation.Prelude.HashMap.{
  HashMap, Distinct, get-insert, get-remove, insert-Distinct, remove-Distinct,
}
use substation.Prelude.HashMap
use substation.Common.MostSeen.{
  MostSeen, no_change, new_most_seen_item, default, or_zero, max_by_count, promote, insert,
  insert_other, remove_best, decrement, remove, best,
}
use substation.Common.MostSeen.Max.{get_of_max, max-none}

module _ {T : Type 0} ⦃e : Key T⦄ where
  -- How often `x` is counted, wherever its count is kept.
  abbrev pub seen : MostSeen T → T → ℕ
  seen m x = ite (m.current_best ≟ x) m.current_count (or_zero (HashMap.get x m.others))

  pub record IsValid (m : MostSeen T) : Type 0 where
    pub distinct : Distinct m.others
    pub apart : HashMap.get m.current_best m.others ≡ none
    pub highest : (x : T) → or_zero (HashMap.get x m.others) ≤ m.current_count

  pub default-IsValid : (d : T) → IsValid (default d)
  unfolding default HashMap.get
  default-IsValid d = record { distinct = tt; apart = refl; highest = λ x. omega arith }

  -- The branches of `insert` and `remove`.
  insert_hit :
      (m : MostSeen T) (item : T)
      → m.current_best ≡ item
      → insert m item ≡ (record m { current_count = m.current_count + 1 }, no_change)
  unfolding insert
  insert_hit m item p = ground arith

  insert_miss :
      (m : MostSeen T) (item : T) → m.current_best ≢ item → insert m item ≡ insert_other m item
  unfolding insert
  insert_miss m item n = ground arith

  abbrev less : MostSeen T → MostSeen T
  less m = record m { current_count = m.current_count - 1 }

  remove_hit :
      (m : MostSeen T) (item : T)
      → m.current_best ≡ item
      → remove m item ≡ remove_best (less m) (max_by_count m.others)
  unfolding remove
  remove_hit m item p = ground arith

  remove_miss :
      (m : MostSeen T) (item : T)
      → m.current_best ≢ item
      → remove m item
        ≡ (record m { others = decrement m.others item (HashMap.get item m.others) }, no_change)
  unfolding remove
  remove_miss m item n = ground arith

  -- What putting `item` on top does, where its count in `others` beats the best one.
  promote-seen :
      (m : MostSeen T) (others : HashMap T ℕ) (item : T) (x : T)
      → m.current_best ≢ item
      → HashMap.get m.current_best others ≡ none
      → seen (promote m others item) x
        ≡ ite (m.current_best ≟ x) m.current_count (or_zero (HashMap.get x others))
  unfolding promote
  promote-seen m others item x n h = ground (
    arith,
    get-insert m.current_best x m.current_count (HashMap.remove item others),
    get-remove item x others,
  )

  promote-IsValid :
      (m : MostSeen T) (others : HashMap T ℕ) (item : T)
      → m.current_best ≢ item
      → Distinct others
      → HashMap.get m.current_best others ≡ none
      → m.current_count ≤ or_zero (HashMap.get item others)
      → ((x : T) → or_zero (HashMap.get x others) ≤ or_zero (HashMap.get item others))
      → IsValid (promote m others item)
  unfolding promote
  promote-IsValid m others item n d a h top = record {
    distinct =
        insert-Distinct m.current_best m.current_count (HashMap.remove item others)
          (remove-Distinct item others d);
    apart = ground (
      arith,
      get-insert m.current_best item m.current_count (HashMap.remove item others),
      get-remove item item others,
    );
    highest = λ x. ground (
      arith,
      top x,
      get-insert m.current_best x m.current_count (HashMap.remove item others),
      get-remove item x others,
    );
  }

  -- The old best is beaten by the greatest entry, or stays.
  remove_best-seen :
      (m : MostSeen T) (o : Option (T × ℕ)) (x : T)
      → Distinct m.others
      → HashMap.get m.current_best m.others ≡ none
      → max_by_count m.others ≡ o
      → seen (remove_best m o).0 x ≡ seen m x
  unfolding remove_best
  remove_best-seen m none x d a h = refl
  remove_best-seen m (some (k, n)) x d a h =
      let found = (get_of_max m.others k n d h).0 in
      elim (Bool-cases (ltb m.current_count n)) [
        | inl e ↦ rw (e, remove_best) (promote-seen m m.others k x (λ p. ground arith) a)
        | inr e ↦ rw (e, remove_best)
      ]

  remove_best-IsValid :
      (m : MostSeen T) (o : Option (T × ℕ))
      → Distinct m.others
      → HashMap.get m.current_best m.others ≡ none
      → max_by_count m.others ≡ o
      → IsValid (remove_best m o).0
  unfolding remove_best
  remove_best-IsValid m none d a h = record {
    distinct = d;
    apart = a;
    highest = λ x. rw (max-none m.others x h) (omega arith);
  }
  remove_best-IsValid m (some (k, n)) d a h =
      let (found, top) = get_of_max m.others k n d h in
      elim (Bool-cases (ltb m.current_count n)) [
        | inl e ↦
            rw (e, remove_best)
              (promote-IsValid m m.others k (λ p. ground arith) d a (ground arith)
                λ x. ground (arith, top x))
        | inr e ↦
            rw (e, remove_best)
              (record { distinct = d; apart = a; highest = λ x. ground (arith, top x) })
      ]

  remove_best-change :
      (m : MostSeen T) (o : Option (T × ℕ))
      → Distinct m.others
      → HashMap.get m.current_best m.others ≡ none
      → max_by_count m.others ≡ o
      → (remove_best m o).1
        ≡ ite (m.current_best ≟ (remove_best m o).0.current_best) no_change new_most_seen_item
  unfolding remove_best promote
  remove_best-change m none d a h = ground arith
  remove_best-change m (some (k, n)) d a h =
      let found = (get_of_max m.others k n d h).0 in ground arith

  -- From a valid state an insertion counts its item once more and no other item differently,
  -- whether or not the most seen item changes.
  pub seen-insert :
      (m : MostSeen T) (item x : T)
      → IsValid m
      → seen (insert m item).0 x ≡ ite (item ≟ x) (seen m item + 1) (seen m x)
  unfolding insert
  seen-insert m item x v =
      let n = or_zero (HashMap.get item m.others) + 1 in
      let others = HashMap.insert item n m.others in
      ground (
        arith,
        v.apart,
        get-insert item x n m.others,
        get-insert item item n m.others,
        get-insert item m.current_best n m.others,
        get-insert m.current_best x m.current_count (HashMap.remove item others),
        get-remove item x others,
      )

  insert_other-IsValid :
      (m : MostSeen T) (item : T)
      → m.current_best ≢ item
      → IsValid m
      → IsValid (insert_other m item).0
  unfolding insert_other
  insert_other-IsValid m item n v =
      let count = or_zero (HashMap.get item m.others) + 1 in
      let others = HashMap.insert item count m.others in
      let d = insert-Distinct item count m.others v.distinct in
      let a : HashMap.get m.current_best others ≡ none =
        ground (arith, v.apart, get-insert item m.current_best count m.others) in
      elim (Bool-cases (ltb m.current_count count)) [
        | inl e ↦
            rw (e, insert_other)
              (promote-IsValid m others item n d a
                (ground (arith, get-insert item item count m.others))
                λ x. ground (
                  arith,
                  v.highest x,
                  get-insert item item count m.others,
                  get-insert item x count m.others,
                ))
        | inr e ↦
            rw (e, insert_other)
              (record {
                distinct = d;
                apart = a;
                highest = λ x. ground (arith, v.highest x, get-insert item x count m.others);
              })
      ]

  -- An insertion keeps the state valid: the most seen item is not among the others, and none of
  -- those is counted more often.
  pub insert_item-IsValid : (m : MostSeen T) (item : T) → IsValid m → IsValid (insert m item).0
  insert_item-IsValid m item v = elim (m.current_best ≟ item) [
    | yes p ↦ rw (insert_hit m item p) (record {
      distinct = v.distinct;
      apart = v.apart;
      highest = λ x. ground (arith, v.highest x);
    })
    | no n ↦ rw (insert_miss m item n) (insert_other-IsValid m item n v)
  ]

  seen-decrement :
      (m : MostSeen T) (item x : T)
      → m.current_best ≢ item
      → IsValid m
      → (o : Option ℕ) → HashMap.get item m.others ≡ o
      → seen (record m { others = decrement m.others item o }) x
        ≡ ite (item ≟ x) (seen m item - 1) (seen m x)
  unfolding decrement
  seen-decrement m item x n v none h = ground arith
  seen-decrement m item x n v (some c) h = ground (arith, get-insert item x (c - 1) m.others)

  decrement-IsValid :
      (m : MostSeen T) (item : T)
      → m.current_best ≢ item
      → IsValid m
      → (o : Option ℕ) → HashMap.get item m.others ≡ o
      → IsValid (record m { others = decrement m.others item o })
  unfolding decrement
  decrement-IsValid m item n v none h = v
  decrement-IsValid m item n v (some c) h = record {
    distinct = insert-Distinct item (c - 1) m.others v.distinct;
    apart = ground (arith, v.apart, get-insert item m.current_best (c - 1) m.others);
    highest = λ x. ground (arith, v.highest x, v.highest item, get-insert item x (c - 1) m.others);
  }

  -- From a valid state a removal counts its item once less, where it was counted, and no other
  -- item differently.
  pub seen-remove :
      (m : MostSeen T) (item x : T)
      → IsValid m
      → seen (remove m item).0 x ≡ ite (item ≟ x) (seen m item - 1) (seen m x)
  seen-remove m item x v = elim (m.current_best ≟ item) [
    | yes p ↦
        rw (remove_hit m item p) (
          remove_best-seen (less m) (max_by_count m.others) x v.distinct v.apart refl
          ∙ ground arith)
    | no n ↦
        rw (remove_miss m item n) (seen-decrement m item x n v (HashMap.get item m.others) refl)
  ]

  -- A removal keeps the state valid: the most seen item is not among the others, and none of those
  -- is counted more often.
  pub remove_item-IsValid : (m : MostSeen T) (item : T) → IsValid m → IsValid (remove m item).0
  remove_item-IsValid m item v = elim (m.current_best ≟ item) [
    | yes p ↦
        rw (remove_hit m item p)
          (remove_best-IsValid (less m) (max_by_count m.others) v.distinct v.apart refl)
    | no n ↦
        rw (remove_miss m item n) (decrement-IsValid m item n v (HashMap.get item m.others) refl)
  ]

  -- The best item is counted at least as often as any other.
  pub best-highest : (m : MostSeen T) (x : T) → IsValid m → seen m x ≤ seen m (best m)
  unfolding best
  best-highest m x v = ground (arith, v.highest x)

  -- An insertion reports a new most seen item exactly when the best item after it is another than
  -- before.
  pub change-insert :
      (m : MostSeen T) (item : T)
      → (insert m item).1 ≡ ite (best m ≟ best (insert m item).0) no_change new_most_seen_item
  unfolding insert best
  change-insert m item = ground arith

  -- From a valid state a removal reports a new most seen item exactly when the best item after it
  -- is another than before.
  pub change-remove :
      (m : MostSeen T) (item : T)
      → IsValid m
      → (remove m item).1 ≡ ite (best m ≟ best (remove m item).0) no_change new_most_seen_item
  unfolding best
  change-remove m item v = elim (m.current_best ≟ item) [
    | yes p ↦
        rw (remove_hit m item p)
          (remove_best-change (less m) (max_by_count m.others) v.distinct v.apart refl)
    | no n ↦ rw (remove_miss m item n) (ground arith)
  ]

  -- From a valid state an insertion keeps the state valid, so that the best item is one that was seen
  -- most, counts its item once more and no other item differently, and reports a new most seen item
  -- exactly when the best item after it is another than before.
  pub insert_item_lem :
      (m : MostSeen T) (item x : T)
      → IsValid m
      → IsValid (insert m item).0
        × (seen (insert m item).0 x ≡ ite (item ≟ x) (seen m item + 1) (seen m x))
        × ((insert m item).1 ≡ ite (best m ≟ best (insert m item).0) no_change new_most_seen_item)
  insert_item_lem m item x v =
      (insert_item-IsValid m item v, seen-insert m item x v, change-insert m item)

  -- From a valid state a removal keeps the state valid, so that the best item is one that was seen most,
  -- counts its item once less, where it was counted, and no other item differently, and reports a
  -- new most seen item exactly when the best item after it is another than before.
  pub remove_item_lem :
      (m : MostSeen T) (item x : T)
      → IsValid m
      → IsValid (remove m item).0
        × (seen (remove m item).0 x ≡ ite (item ≟ x) (seen m item - 1) (seen m x))
        × ((remove m item).1 ≡ ite (best m ≟ best (remove m item).0) no_change new_most_seen_item)
  remove_item_lem m item x v =
      (remove_item-IsValid m item v, seen-remove m item x v, change-remove m item v)
