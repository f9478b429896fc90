-- ===== src/Core/Counter/Tally.antt =====
-- When a `Counter` agrees with a list of slots: each key is counted as often as an occupied slot has
-- it. Such a counter follows the list as items come and go.
use substation.Prelude.{
  ℕ, zero, suc, ◌+◌, ◌-◌, ◌≤◌, ◌<◌, ◌^◌, ◌≡◌, refl, sym, ◌∙◌, true, List, [], ◌∷◌, ◌++◌, Option,
  none, some, Key, get_elem?, set, arith, if◌then◌else◌,
}
use substation.Prelude.Outcome.{ret, of_ret}
use substation.Common.DenseMap.Laws.{occupied}
use substation.Core.Counter
use substation.Prelude.HashMap
use substation.Core.Counter.{Counter, CounterValue, increment, decrement, modify}
use substation.Core.Counter.Laws.{IsValid, hits, same, bumped, hits-increment, hits-decrement}

module _ {T : Type 0} where
  -- The sum of a weight over the occupied slots.
  abbrev pub weigh : (T → ℕ) → List (Option T) → ℕ
  weigh h [] = 0
  weigh h (none ∷ xs) = weigh h xs
  weigh h (some x ∷ xs) = h x + weigh h xs

  -- The second list has the items of the first, and one more.
  abbrev pub Gains : List (Option T) → T → List (Option T) → Type 0
  Gains xs x ys = (h : T → ℕ) → weigh h ys ≡ h x + weigh h xs

  pub Gains-snoc : (xs : List (Option T)) (x : T) → Gains xs x (xs ++ some x ∷ [])
  Gains-snoc [] x h = refl
  Gains-snoc (none ∷ xs) x h = Gains-snoc xs x h
  Gains-snoc (some y ∷ xs) x h = omega (arith, Gains-snoc xs x h)

  pub Gains-set :
      (xs : List (Option T)) (i : ℕ) (x : T)
      → get_elem? xs i ≡ some none
      → Gains xs x (set xs i (some x))
  Gains-set [] i x e h = cc
  Gains-set (none ∷ xs) zero x e h = refl
  Gains-set (some y ∷ xs) zero x e h = cc
  Gains-set (none ∷ xs) (suc i) x e h = Gains-set xs i x e h
  Gains-set (some y ∷ xs) (suc i) x e h = omega (arith, Gains-set xs i x e h)

  pub Gains-vacate :
      (xs : List (Option T)) (i : ℕ) (x : T)
      → get_elem? xs i ≡ some (some x)
      → Gains (set xs i none) x xs
  Gains-vacate [] i x e h = cc
  Gains-vacate (none ∷ xs) zero x e h = cc
  Gains-vacate (some y ∷ xs) zero x e h = ground arith
  Gains-vacate (none ∷ xs) (suc i) x e h = Gains-vacate xs i x e h
  Gains-vacate (some y ∷ xs) (suc i) x e h = omega (arith, Gains-vacate xs i x e h)

  weigh-occupied : (xs : List (Option T)) → weigh (λ _. 1) xs ≡ occupied xs
  weigh-occupied [] = refl
  weigh-occupied (none ∷ xs) = weigh-occupied xs
  weigh-occupied (some x ∷ xs) = omega (arith, weigh-occupied xs)

  pub Gains-occupied :
      (xs ys : List (Option T)) (x : T) → Gains xs x ys → occupied ys ≡ occupied xs + 1
  Gains-occupied xs ys x g = omega (arith, g (λ _. 1), weigh-occupied xs, weigh-occupied ys)

module _ {K : Type 0} ⦃e : Key K⦄ where
  same_refl : (q : Option K) → same q q ≡ true
  same_refl none = refl
  same_refl (some k) = ground arith

  same_eq : (p q : Option K) → same p q ≡ true → p ≡ q
  same_eq none none s = refl
  same_eq none (some k) s = cc
  same_eq (some k) none s = cc
  same_eq (some j) (some k) s = ground arith

module _ {K T : Type 0} ⦃e : Key K⦄ where
  abbrev has : (T → Option K) → Option K → T → ℕ
  has f q x = if same (f x) q then 1 else 0

  has-le : (f : T → Option K) (q : Option K) (x : T) → has f q x ≤ 1
  has-le f q x = ground arith

  weigh-has-le :
      (f : T → Option K) (q : Option K) (xs : List (Option T)) → weigh (has f q) xs ≤ occupied xs
  weigh-has-le f q [] = omega arith
  weigh-has-le f q (none ∷ xs) = weigh-has-le f q xs
  weigh-has-le f q (some x ∷ xs) = omega (arith, weigh-has-le f q xs, has-le f q x)

  -- The counter has each key as often as the items have it.
  pub record Agrees (c : Counter K) (f : T → Option K) (xs : List (Option T)) : Type 0 where
    pub valid : IsValid c
    pub agrees : (q : Option K) → hits c q ≡ weigh (has f q) xs

  pub new-Agrees : {f : T → Option K} → Agrees Counter.new f []
  unfolding Counter.new HashMap.get
  new-Agrees = record {
    valid = record { positive = λ k h. cc; small = new-small };
    agrees = new-none;
  }
    where
      new-small : (k : Option K) → hits (Counter.new {K = K}) k < 2 ^ 64
      new-small none = omega arith
      new-small (some k) = omega arith

      new-none : (q : Option K) → hits (Counter.new {K = K}) q ≡ 0
      new-none none = refl
      new-none (some k) = refl

  -- A step of the counter that does not panic, after which it agrees with the items.
  pub record Follows (c : Counter K) (key : Option K) (op : CounterValue) (f : T → Option K)
      (ys : List (Option T)) : Type 0 where
    pub value : Counter K
    pub is : modify c key op ≡ ret value
    pub agree : Agrees value f ys

  pub increment-Follows :
      (c : Counter K) (f : T → Option K) (xs ys : List (Option T)) (x : T)
      → Agrees c f xs
      → Gains xs x ys
      → occupied xs + 1 < 2 ^ 64
      → Follows c (f x) increment f ys
  increment-Follows c f xs ys x a g room =
      let fits : hits c (f x) + 1 < 2 ^ 64 =
        omega (arith, a.agrees (f x), weigh-has-le f (f x) xs) in
      let (c', is, valid, _) = hits-increment c (f x) (f x) a.valid fits in
      record {
        value = c';
        is = is;
        agree = record {
          valid = valid;
          agrees = λ q.
              let (d, is', _, count) = hits-increment c (f x) q a.valid fits in
              let count' =
                of_ret (λ d. hits d q ≡ bumped (f x) q (λ n. n + 1) c) (sym is' ∙ is) count in
              ground (arith, count', g (has f q), a.agrees q, a.agrees (f x), same_eq (f x) q);
        };
      }

  pub decrement-Follows :
      (c : Counter K) (f : T → Option K) (xs ys : List (Option T)) (x : T)
      → Agrees c f ys
      → Gains xs x ys
      → Follows c (f x) decrement f xs
  decrement-Follows c f xs ys x a g =
      let there : 0 < hits c (f x) =
        ground (arith, a.agrees (f x), g (has f (f x)), same_refl (f x)) in
      let (c', is, valid, _) = hits-decrement c (f x) (f x) a.valid there in
      record {
        value = c';
        is = is;
        agree = record {
          valid = valid;
          agrees = λ q.
              let (d, is', _, count) = hits-decrement c (f x) q a.valid there in
              let count' =
                of_ret (λ d. hits d q ≡ bumped (f x) q (λ n. n - 1) c) (sym is' ∙ is) count in
              ground (arith, count', g (has f q), a.agrees q, a.agrees (f x), same_eq (f x) q);
        };
      }

  -- One item takes another's place, and has the same key.
  pub Agrees-swap :
      (c : Counter K) (f : T → Option K) (mid xs ys : List (Option T)) (x y : T)
      → Agrees c f xs
      → Gains mid x xs
      → Gains mid y ys
      → f x ≡ f y
      → Agrees c f ys
  Agrees-swap c f mid xs ys x y a g g' e = record {
    valid = a.valid;
    agrees = λ q. ground (arith, a.agrees q, g (has f q), g' (has f q), e);
  }
