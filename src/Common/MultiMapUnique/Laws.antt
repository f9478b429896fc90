-- ===== src/Common/MultiMapUnique/Laws.antt =====
-- The two maps of a `MultiMapUnique` are inverse to one another, and stay so.
use substation.Prelude.{
  ◌≢◌, ◌≡◌, refl, Bool, true, false, [], ◌∷◌, Option, none, some, Key, ◌≟◌, ite, arith,
  Option-cases, inl, inr,
}
use substation.Prelude.HashMap.{HashMap, get-insert, get-remove}
use substation.Prelude.HashMap
use substation.Prelude.HashSet.{HashSet, contains, contains-insert, contains-remove}
use substation.Prelude.HashSet
use substation.Common.MultiMapUnique.{
  MultiMapUnique, new, get_values, keep_values, drop_value, remove_value, or_empty, put_value,
  insert,
}

abbrev pub is_key : {K : Type 0} ⦃k : Key K⦄ → Option K → K → Bool
is_key none key = false
is_key (some j) key = ite (j ≟ key) true false

-- Does the value stand in a set that may be missing?
abbrev pub in_set : {V : Type 0} ⦃v : Key V⦄ → V → Option (HashSet V) → Bool
in_set value none = false
in_set value (some values) = contains value values

insert-ne-nil : {V : Type 0} ⦃v : Key V⦄ (value : V) (s : HashSet V) → HashSet.insert value s ≢ []
unfolding HashSet.insert
insert-ne-nil value [] e = cc
insert-ne-nil value (x ∷ xs) e = ground arith

module _ {K V : Type 0} ⦃k : Key K⦄ ⦃v : Key V⦄ where
  -- Does the value stand in the set of the key?
  abbrev pub holds : MultiMapUnique K V → K → V → Bool
  holds m key value = in_set value (get_values m key)

  pub record IsValid (m : MultiMapUnique K V) : Type 0 where
    pub inverse :
        (key : K) (value : V) → holds m key value ≡ is_key (HashMap.get value m.value_to_key) key
    pub occupied : (key : K) → HashMap.get key m.key_to_values ≢ some []

  pub new-IsValid : IsValid new
  unfolding new get_values HashMap.get
  new-IsValid = record { inverse = λ key value. refl; occupied = λ key h. cc }

  values-keep_values :
      (key j : K) (value : V) (values : HashSet V) (sets : HashMap K (HashSet V))
      → in_set value (HashMap.get j (keep_values key values sets))
        ≡ ite (key ≟ j) (contains value values) (in_set value (HashMap.get j sets))
  unfolding keep_values contains
  values-keep_values key j value [] sets = ground (arith, get-remove key j sets)
  values-keep_values key j value (x ∷ xs) sets = ground (arith, get-insert key j (x ∷ xs) sets)

  occupied-keep_values :
      (key j : K) (values : HashSet V) (sets : HashMap K (HashSet V))
      → HashMap.get j sets ≢ some []
      → HashMap.get j (keep_values key values sets) ≢ some []
  unfolding keep_values
  occupied-keep_values key j [] sets h e = ground (arith, get-remove key j sets)
  occupied-keep_values key j (x ∷ xs) sets h e = ground (arith, get-insert key j (x ∷ xs) sets)

  values-drop_value :
      (m : MultiMapUnique K V) (key : K) (value : V) (k' : K) (v' : V)
      → IsValid m
      → HashMap.get value m.value_to_key ≡ some key
      → in_set v' (HashMap.get k' (drop_value key value m.key_to_values))
        ≡ ite (value ≟ v') false (holds m k' v')
  unfolding drop_value get_values
  values-drop_value m key value k' v' w h = elim (Option-cases (HashMap.get key m.key_to_values)) [
    | inl e ↦ ground (arith, w.inverse k' v')
    | inr (values, e) ↦ ground (
      arith,
      w.inverse k' v',
      values-keep_values key k' v' (HashSet.remove value values) m.key_to_values,
      contains-remove value v' values,
    )
  ]

  occupied-drop_value :
      (m : MultiMapUnique K V) (key : K) (value : V) (k' : K)
      → IsValid m
      → HashMap.get k' (drop_value key value m.key_to_values) ≢ some []
  unfolding drop_value
  occupied-drop_value m key value k' w = elim (Option-cases (HashMap.get key m.key_to_values)) [
    | inl e ↦ rw (e, drop_value) (w.occupied k')
    | inr (values, e) ↦
        rw (e, drop_value)
          (occupied-keep_values key k' (HashSet.remove value values) m.key_to_values
            (w.occupied k'))
  ]

  -- What `remove_value` returns and leaves in the sets.
  pub values-remove_value :
      (m : MultiMapUnique K V) (value : V) (k' : K) (v' : V)
      → IsValid m
      → ((remove_value m value).1 ≡ HashMap.get value m.value_to_key)
        × (holds (remove_value m value).0 k' v' ≡ ite (value ≟ v') false (holds m k' v'))
  unfolding remove_value get_values
  values-remove_value m value k' v' w = elim (Option-cases (HashMap.get value m.value_to_key)) [
    | inl e ↦ ground (arith, w.inverse k' v')
    | inr (key, e) ↦ ground (arith, values-drop_value m key value k' v' w e)
  ]

  remove_value-inverse :
      (m : MultiMapUnique K V) (value : V) (k' : K) (v' : V)
      → IsValid m
      → HashMap.get v' (remove_value m value).0.value_to_key
        ≡ ite (value ≟ v') none (HashMap.get v' m.value_to_key)
  unfolding remove_value
  remove_value-inverse m value k' v' w = elim (Option-cases (HashMap.get value m.value_to_key)) [
    | inl e ↦ ground arith
    | inr (key, e) ↦ ground (arith, get-remove value v' m.value_to_key)
  ]

  remove_value-occupied :
      (m : MultiMapUnique K V) (value : V) (k' : K) (o : Option K)
      → IsValid m
      → HashMap.get value m.value_to_key ≡ o
      → HashMap.get k' (remove_value m value).0.key_to_values ≢ some []
  unfolding remove_value
  remove_value-occupied m value k' none w e = rw (e, remove_value) (w.occupied k')
  remove_value-occupied m value k' (some key) w e =
      rw (e, remove_value) (occupied-drop_value m key value k' w)

  pub remove_value-IsValid :
      (m : MultiMapUnique K V) (value : V) → IsValid m → IsValid (remove_value m value).0
  remove_value-IsValid m value w = record {
    inverse = λ k' v'. ground (
      arith,
      w.inverse k' v',
      values-remove_value m value k' v' w,
      remove_value-inverse m value k' v' w,
    );
    occupied = λ k'. remove_value-occupied m value k' (HashMap.get value m.value_to_key) w refl;
  }

  -- From a valid map `remove_value` returns the key that the value had, and leaves a valid map in which
  -- the value has no key and stands in no set, while every other value has the key it had, and stands
  -- in the sets it stood in.
  pub remove_value_lem :
      (m : MultiMapUnique K V) (value : V) (k' : K) (v' : V)
      → IsValid m
      → let (n, old_key) = remove_value m value in
        IsValid n
        × (old_key ≡ HashMap.get value m.value_to_key)
        × (HashMap.get v' n.value_to_key ≡ ite (value ≟ v') none (HashMap.get v' m.value_to_key))
        × (holds n k' v' ≡ ite (value ≟ v') false (holds m k' v'))
  remove_value_lem m value k' v' w =
      let (old, moved) = values-remove_value m value k' v' w in
      (remove_value-IsValid m value w, old, remove_value-inverse m value k' v' w, moved)

  holds-put_value :
      (m : MultiMapUnique K V) (key : K) (value : V) (k' : K) (v' : V)
      → holds (put_value m key value) k' v'
        ≡ ite (key ≟ k') (ite (value ≟ v') true (holds m k' v')) (holds m k' v')
  unfolding put_value get_values contains
  holds-put_value m key value k' v' =
      let values = or_empty (HashMap.get key m.key_to_values) in
      ground (
        arith,
        get-insert key k' (HashSet.insert value values) m.key_to_values,
        contains-insert value v' values,
      )

  key-put_value :
      (m : MultiMapUnique K V) (key : K) (value v' : V)
      → HashMap.get v' (put_value m key value).value_to_key
        ≡ ite (value ≟ v') (some key) (HashMap.get v' m.value_to_key)
  unfolding put_value
  key-put_value m key value v' = get-insert value v' key m.value_to_key

  occupied-put_value :
      (m : MultiMapUnique K V) (key : K) (value : V) (k' : K)
      → HashMap.get k' m.key_to_values ≢ some []
      → HashMap.get k' (put_value m key value).key_to_values ≢ some []
  unfolding put_value
  occupied-put_value m key value k' h e =
      let values = or_empty (HashMap.get key m.key_to_values) in
      ground (
        arith,
        get-insert key k' (HashSet.insert value values) m.key_to_values,
        insert-ne-nil value values,
      )

  -- In a valid map, after `insert` the value is under its key and under no other key, every other
  -- value stays where it was, and the key that the value had is returned.
  pub insert_lem :
      (m : MultiMapUnique K V) (key : K) (value : V) (k' : K) (v' : V)
      → IsValid m
      → ((insert m key value).1 ≡ HashMap.get value m.value_to_key)
        × (holds (insert m key value).0 k' v'
            ≡ ite (value ≟ v') (ite (key ≟ k') true false) (holds m k' v'))
  unfolding insert
  insert_lem m key value k' v' w =
      let (old, moved) = values-remove_value m value k' v' w in
      (old, ground (arith, moved, holds-put_value (remove_value m value).0 key value k' v'))

  -- An insertion keeps the two maps inverse to one another, and leaves no key with an empty set.
  pub insert-IsValid :
      (m : MultiMapUnique K V) (key : K) (value : V) → IsValid m → IsValid (insert m key value).0
  unfolding insert
  insert-IsValid m key value w =
      let m' = (remove_value m value).0 in
      let w' = remove_value-IsValid m value w in
      record {
        inverse = λ k' v'. ground (
          arith,
          w'.inverse k' v',
          (values-remove_value m value k' v' w).1,
          holds-put_value m' key value k' v',
          key-put_value m' key value v',
        );
        occupied = λ k'. occupied-put_value m' key value k' (w'.occupied k');
      }

  -- From a valid map an insertion keeps the two maps inverse to one another and every set inhabited,
  -- returns the key that the value had, puts the value under its new key and under no other, and
  -- leaves every other value where it was.
  pub insert_value_lem :
      (m : MultiMapUnique K V) (key : K) (value : V) (k' : K) (v' : V)
      → IsValid m
      → IsValid (insert m key value).0
        × ((insert m key value).1 ≡ HashMap.get value m.value_to_key)
        × (holds (insert m key value).0 k' v'
            ≡ ite (value ≟ v') (ite (key ≟ k') true false) (holds m k' v'))
  insert_value_lem m key value k' v' w =
      let (old, moved) = insert_lem m key value k' v' w in
      (insert-IsValid m key value w, old, moved)
