-- ===== src/Core/Counter/Laws.antt =====
-- A `Counter` tallies the keys that were added and not removed, and its top ranking loses none.
use substation.Prelude.{
  ◌≢◌, ℕ, zero, suc, ◌+◌, ◌-◌, ◌<◌, ◌^◌, ◌≡◌, refl, Bool, true, false, Option, none, some, Key, ◌≟◌,
  ite, Option-cases, inl, inr, if◌then◌else◌, arith,
}
use substation.Prelude.HashMap.{HashMap, get-insert, get-remove}
use substation.Prelude.HashMap
use substation.Prelude.Outcome.{ret, panic}
use substation.Core.Counter.{
  Counter, increment, decrement, less_one, modify, modify_empty, modify_found,
}

less_one-sub : (n : ℕ) → 0 < n → n < 2 ^ 64 → less_one n ≡ n - 1
unfolding less_one
less_one-sub n p r = omega arith

module _ {K : Type 0} ⦃e : Key K⦄ where
  -- How often the counter has a key; of `none`, the keys that were not given.
  abbrev pub hits : Counter K → Option K → ℕ
  hits c none = c.empty
  hits c (some k) = elim (HashMap.get k c.map) [ none ↦ 0 | some n ↦ n ]

  abbrev pub same : Option K → Option K → Bool
  same none none = true
  same (some j) (some k) = ite (j ≟ k) true false
  same _ _ = false

  -- No key is kept with no hits, and every count is one of a `u64`.
  pub record IsValid (c : Counter K) : Type 0 where
    pub positive : (k : K) → HashMap.get k c.map ≢ some 0
    pub small : (k : Option K) → hits c k < 2 ^ 64

  -- What one step makes of a count.
  abbrev pub bumped : Option K → Option K → (ℕ → ℕ) → Counter K → ℕ
  bumped key q f c = if same key q then f (hits c key) else hits c q

  insert-IsValid :
      (c : Counter K) (k : K) (n : ℕ)
      → IsValid c
      → 0 < n
      → n < 2 ^ 64
      → IsValid (record c { map = HashMap.insert k n c.map })
  insert-IsValid c k n v p r = record {
    positive = λ j h. ground (arith, v.positive j, get-insert k j n c.map);
    small = insert-small;
  }
    where
      insert-small : (q : Option K) → hits (record c { map = HashMap.insert k n c.map }) q < 2 ^ 64
      insert-small none = v.small none
      insert-small (some j) = ground (arith, v.small (some j), get-insert k j n c.map)

  remove-IsValid :
      (c : Counter K) (k : K) → IsValid c → IsValid (record c { map = HashMap.remove k c.map })
  remove-IsValid c k v = record {
    positive = λ j h. ground (arith, v.positive j, get-remove k j c.map);
    small = remove-small;
  }
    where
      remove-small : (q : Option K) → hits (record c { map = HashMap.remove k c.map }) q < 2 ^ 64
      remove-small none = v.small none
      remove-small (some j) = ground (arith, v.small (some j), get-remove k j c.map)

  empty-IsValid :
      (c : Counter K) (n : ℕ) → IsValid c → n < 2 ^ 64 → IsValid (record c { empty = n })
  empty-IsValid c n v r = record { positive = v.positive; small = empty-small }
    where
      empty-small : (q : Option K) → hits (record c { empty = n }) q < 2 ^ 64
      empty-small none = r
      empty-small (some j) = v.small (some j)

  hits-insert :
      (c : Counter K) (k : K) (n : ℕ) (q : Option K)
      → hits (record c { map = HashMap.insert k n c.map }) q
        ≡ (if same (some k) q then n else hits c q)
  hits-insert c k n none = refl
  hits-insert c k n (some j) = ground (arith, get-insert k j n c.map)

  hits-remove :
      (c : Counter K) (k : K) (q : Option K)
      → hits (record c { map = HashMap.remove k c.map }) q
        ≡ (if same (some k) q then 0 else hits c q)
  hits-remove c k none = refl
  hits-remove c k (some j) = ground (arith, get-remove k j c.map)

  hits-empty :
      (c : Counter K) (n : ℕ) (q : Option K)
      → hits (record c { empty = n }) q ≡ (if same none q then n else hits c q)
  hits-empty c n none = refl
  hits-empty c n (some j) = refl

  -- From a valid counter whose count has room, an increment does not panic, keeps the counter
  -- valid, counts its key once more and every other key as before.
  pub hits-increment :
      (c : Counter K) (key q : Option K)
      → IsValid c
      → hits c key + 1 < 2 ^ 64
      → (c' : Counter K) × (modify c key increment ≡ ret c')
        × IsValid c'
        × (hits c' q ≡ bumped key q (λ n. n + 1) c)
  unfolding modify
  hits-increment c none q v room =
      (record c { empty = c.empty + 1 }, refl, empty-IsValid c _ v room, hits-empty c _ q)
  hits-increment c (some k) q v room = elim (Option-cases (HashMap.get k c.map)) [
    | inl e ↦ (
      record c { map = HashMap.insert k 1 c.map },
      ground arith,
      insert-IsValid c k 1 v (omega arith) (omega arith),
      ground (arith, hits-insert c k 1 q),
    )
    | inr (n, e) ↦ (
      record c { map = HashMap.insert k (n + 1) c.map },
      ground arith,
      insert-IsValid c k (n + 1) v (omega arith) (ground arith),
      ground (arith, hits-insert c k (n + 1) q),
    )
  ]

  decrement_found :
      (c : Counter K) (k : K) (q : Option K) (n : ℕ)
      → IsValid c
      → HashMap.get k c.map ≡ some n
      → (c' : Counter K) × (modify c (some k) decrement ≡ ret c')
        × IsValid c'
        × (hits c' q ≡ bumped (some k) q (λ i. i - 1) c)
  unfolding modify
  decrement_found c k q zero v h = absurd (v.positive k h)
  decrement_found c k q (suc zero) v h = (
    record c { map = HashMap.remove k c.map },
    ground (arith, less_one-sub 1),
    remove-IsValid c k v,
    ground (arith, hits-remove c k q),
  )
  decrement_found c k q (suc (suc n)) v h =
      let small : suc (suc n) < 2 ^ 64 = ground (arith, v.small (some k)) in
      let e : less_one (suc (suc n)) ≡ suc n = omega (arith, less_one-sub (suc (suc n))) in
      (
        record c { map = HashMap.insert k (suc n) c.map },
        ground (arith, e),
        insert-IsValid c k (suc n) v (omega arith) (omega arith),
        ground (arith, hits-insert c k (suc n) q),
      )

  -- From a valid counter a decrement of a key that is counted does not panic, keeps the counter
  -- valid, counts its key once less and every other key as before.
  pub hits-decrement :
      (c : Counter K) (key q : Option K)
      → IsValid c
      → 0 < hits c key
      → (c' : Counter K) × (modify c key decrement ≡ ret c')
        × IsValid c'
        × (hits c' q ≡ bumped key q (λ n. n - 1) c)
  unfolding modify_empty modify_found modify
  hits-decrement c none q v there =
      let e = less_one-sub c.empty there (v.small none) in
      (
        record c { empty = less_one c.empty },
        refl,
        empty-IsValid c _ v (omega (arith, e, v.small none)),
        rw e (hits-empty c _ q),
      )
  hits-decrement c (some k) q v there = elim (Option-cases (HashMap.get k c.map)) [
    | inl e ↦ absurd (ground arith)
    | inr (n, h) ↦ decrement_found c k q n v h
  ]

  -- A decrement of a key that is not counted panics.
  pub decrement-panics :
      (c : Counter K) (k : K)
      → IsValid c
      → hits c (some k) ≡ 0
      → modify c (some k) decrement ≡ panic
  unfolding modify
  decrement-panics c k v h = ground (arith, v.positive k)
