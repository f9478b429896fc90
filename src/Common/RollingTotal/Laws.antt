-- ===== src/Common/RollingTotal/Laws.antt =====
-- The window of a rolling total (backend/common/src/rolling_total.rs): its buckets, their spacing and
-- the cached total.
use native.Mathlib.Nat.{mul-le-mul_left, le_of_mul-le-mul_left, div-add-mod, mod-eq_of_lt, mod-lt}
use substation.Prelude.{
  inl, inr, ℕ, ◌+◌, ◌-◌, ◌*◌, ◌/◌, ◌%◌, ◌^◌, ◌≤◌, ◌<◌, ◌≡◌, refl, sym, subst, ap, ◌∙◌, false, List,
  [], ◌∷◌, ◌++◌, ltb, leb, min, length, arith, Bool-cases, either, ◌≟◌, nat_key,
}
use substation.Common.RollingTotal.{
  RollingTotal, usize_max, saturating_add, last_time, add_to_last, pop_old, step_time, push_bucket,
  push,
}

-- Each bucket begins at least one step after the one before.
abbrev pub Spaced : ℕ → ℕ × ℕ → List (ℕ × ℕ) → Type 0
Spaced g b [] = Unit
Spaced g b (n ∷ rest) = (b.0 + g ≤ n.0) × Spaced g n rest

abbrev pub values : List (ℕ × ℕ) → ℕ
values [] = 0
values (b ∷ rest) = b.1 + values rest

-- The buckets of a window of `w` steps.
abbrev pub Window : ℕ → ℕ → List (ℕ × ℕ) → Type 0
Window g w [] = ⊥
Window g w (first ∷ rest) = Spaced g first rest × (last_time first rest ≤ first.0 + g * (w - 1))

pub record IsValid (r : RollingTotal) : Type 0 where
  pub steps : (1 ≤ r.window_size_multiple) × (r.window_size_multiple ≤ 2 ^ 32) × (1 ≤ r.granularity)
  pub window : Window r.granularity r.window_size_multiple r.averages
  pub summed : r.total ≡ values r.averages

Spaced-length :
    (g : ℕ) (b : ℕ × ℕ) (rest : List (ℕ × ℕ))
    → Spaced g b rest
    → b.0 + g * length rest ≤ last_time b rest
unfolding last_time
Spaced-length g b [] s = omega arith
Spaced-length g b (n ∷ rest) s = omega (arith, Spaced-length g n rest s.1, s.0)

Spaced-snoc :
    (g : ℕ) (b : ℕ × ℕ) (rest : List (ℕ × ℕ)) (t v : ℕ)
    → Spaced g b rest
    → last_time b rest + g ≤ t
    → Spaced g b (rest ++ (t, v) ∷ [])
      × (last_time b (rest ++ (t, v) ∷ []) ≡ t)
      × (values (rest ++ (t, v) ∷ []) ≡ values rest + v)
unfolding last_time
Spaced-snoc g b [] t v s h = ((h, tt), refl, omega arith)
Spaced-snoc g b (n ∷ rest) t v s h =
    let (u, l, x) = Spaced-snoc g n rest t v s.1 h in ((s.0, u), l, omega (arith, x))

-- A valid window never has more buckets than its number of steps.
length-window : (r : RollingTotal) → IsValid r → length r.averages ≤ r.window_size_multiple
length-window r v =
    window_lem r.granularity r.window_size_multiple r.averages v.steps.2 v.steps.0 v.window
  where
    window_lem : (g w : ℕ) (l : List (ℕ × ℕ)) → 1 ≤ g → 1 ≤ w → Window g w l → length l ≤ w
    window_lem g w [] p q x = omega arith
    window_lem g w (first ∷ rest) p q x =
        let fits : g * length rest ≤ g * (w - 1) =
          omega (arith, Spaced-length g first rest x.0, x.1) in
        omega (arith, le_of_mul-le-mul_left fits p)

-- When the last bucket begins.
abbrev pub newest : List (ℕ × ℕ) → ℕ
newest [] = 0
newest (first ∷ rest) = last_time first rest

-- What `pop_old` leaves of spaced buckets, the last of which is not too old.
pop_old_lem :
    (g w oldest total : ℕ) (b : ℕ × ℕ) (rest : List (ℕ × ℕ))
    → Spaced g b rest
    → oldest ≤ last_time b rest
    → last_time b rest ≤ oldest + g * (w - 1)
    → total ≡ values (b ∷ rest)
    → let r = pop_old oldest (b ∷ rest) total in
      Window g w r.0 × (r.1 ≡ values r.0) × (newest r.0 ≡ last_time b rest)
unfolding pop_old last_time
pop_old_lem g w oldest total (t, v) [] s h u e = elim (Bool-cases (ltb t oldest)) [
  | inl f ↦ absurd (ground arith)
  | inr f ↦ rw f ((tt, omega arith), e, refl)
]
pop_old_lem g w oldest total (t, v) (n ∷ rest) s h u e = elim (Bool-cases (ltb t oldest)) [
  | inl f ↦ rw f (pop_old_lem g w oldest (total - v) n rest s.1 h u (omega (arith, e)))
  | inr f ↦ rw f ((s, ground (arith, u)), e, refl)
]

add_to_last_lem :
    (g : ℕ) (b : ℕ × ℕ) (rest : List (ℕ × ℕ)) (value : ℕ)
    → values (b ∷ rest) + value ≤ usize_max
    → Spaced g b rest
    → let l = add_to_last b rest value in
      (values l ≡ values (b ∷ rest) + value)
      × ((c : ℕ × ℕ) × (cs : List (ℕ × ℕ)) × (l ≡ c ∷ cs)
          × (c.0 ≡ b.0)
          × Spaced g c cs
          × (last_time c cs ≡ last_time b rest))
unfolding add_to_last saturating_add last_time
add_to_last_lem g (t, v) [] value h s = (omega (arith, h), ((t, _), [], refl, refl, tt, refl))
add_to_last_lem g (t, v) (n ∷ rest) value h s =
    let (x, (c, cs, e, z, u, end)) = add_to_last_lem g n rest value (omega (arith, h)) s.1 in
    (
      omega (arith, x),
      (
        (t, v),
        _,
        refl,
        refl,
        subst (λ l. Spaced g (t, v) l) (sym e) (omega (arith, z, s.0), u),
        ap (λ l. last_time (t, v) l) e ∙ end,
      ),
    )

step_time_lem :
    (r : RollingTotal) (last time : ℕ)
    → 1 ≤ r.granularity
    → last ≤ time
    → (time - last) / r.granularity < 2 ^ 32
    → r.granularity ≤ time - last
    → (last + r.granularity ≤ step_time r last time)
      × (step_time r last time ≤ time)
      × (time < step_time r last time + r.granularity)
unfolding step_time
step_time_lem r last time p o k h =
    let g = r.granularity in
    let x = time - last in
    let d : g * (x / g) + x % g ≡ x = div-add-mod x g in
    let m : x % g < g = mod-lt x p in
    let one : 1 ≤ x / g = elim (x / g ≟ 0) [
      | yes z ↦ absurd (omega (arith, ap (λ q. g * q) z))
      | no z ↦ omega arith
    ] in
    let up : g * 1 ≤ g * (x / g) = mul-le-mul_left g one in
    rw (mod-eq_of_lt k) (omega arith, omega arith, omega arith)

-- What a push leaves.
pub record Pushed (r : RollingTotal) (time : ℕ) : Type 0 where
  pub valid : IsValid r
  -- The last bucket is the one of the time that was pushed.
  pub current : (newest r.averages ≤ time) × (time < newest r.averages + r.granularity)

push_bucket_lem :
    (r : RollingTotal) (first : ℕ × ℕ) (rest : List (ℕ × ℕ)) (new_time time value : ℕ)
    → r.averages ≡ first ∷ rest
    → IsValid r
    → last_time first rest + r.granularity ≤ new_time
    → (new_time ≤ time) × (time < new_time + r.granularity)
    → r.total + value ≤ usize_max
    → Pushed (push_bucket r new_time value) time
unfolding push_bucket saturating_add
push_bucket_lem r first rest new_time time value e v h t u =
    let g = r.granularity in
    let w = r.window_size_multiple in
    let win : Window g w (first ∷ rest) = subst (λ l. Window g w l) e v.window in
    let (s, l, x) = Spaced-snoc g first rest new_time value win.0 h in
    let m : (w - 1) % 2 ^ 32 ≡ w - 1 = mod-eq_of_lt (omega (arith, v.steps.0, v.steps.1)) in
    let oldest = new_time - g * ((w - 1) % 2 ^ 32) in
    let total : ℕ = min (r.total + value) usize_max in
    let all : total ≡ values (first ∷ rest ++ (new_time, value) ∷ []) =
      omega (arith, x, v.summed, ap values e, u) in
    let (win', sum', new') =
      pop_old_lem g w oldest total first (rest ++ (new_time, value) ∷ []) s (omega (arith, l))
        (omega (arith, l, ap (λ k. g * k) m)) all in
    rw e (record {
      valid = record { steps = v.steps; window = win'; summed = sum' };
      current = (omega (arith, new', l, t.0), omega (arith, new', l, t.1));
    })

-- A value that goes into the last bucket.
push_in_lem :
    (r : RollingTotal) (time value : ℕ) (first : ℕ × ℕ) (rest : List (ℕ × ℕ))
    → IsValid (record r { averages = first ∷ rest })
    → r.total + value ≤ usize_max
    → leb r.granularity (time - last_time first rest) ≡ false
    → last_time first rest ≤ time
    → Pushed
        (record r { averages = add_to_last first rest value; total = saturating_add r.total value })
        time
unfolding saturating_add
push_in_lem r time value first rest v u f o =
    let (x, (c, cs, e, z, sp, end)) =
      add_to_last_lem r.granularity first rest value (omega (arith, v.summed, u)) v.window.0 in
    let new : newest (add_to_last first rest value) ≡ last_time first rest = ap newest e ∙ end in
    record {
      valid = record {
        steps = v.steps;
        window =
            subst (λ l. Window r.granularity r.window_size_multiple l) (sym e)
              (sp, omega (arith, end, z, v.window.1));
        summed = omega (arith, x, v.summed, u);
      };
      current = (omega (arith, new, o), ground (arith, new));
    }

push_first :
    (r : RollingTotal) (time value : ℕ) (first : ℕ × ℕ) (rest : List (ℕ × ℕ))
    → let s = record r { averages = first ∷ rest } in
      IsValid s
      → last_time first rest ≤ time
      → (time - last_time first rest) / r.granularity < 2 ^ 32
      → r.total + value ≤ usize_max
      → Pushed (push s time value) time
unfolding push saturating_add
push_first r time value first rest v o k u =
    let s = record r { averages = first ∷ rest } in
    let last = last_time first rest in
    elim (Bool-cases (leb r.granularity (time - last))) [
      | inl f ↦
          let (a, b, c) = step_time_lem s last time v.steps.2 o k (ground arith) in
          rw (f, push)
            (push_bucket_lem s first rest (step_time s last time) time value refl v a (b, c) u)
      | inr f ↦ rw (f, push) (push_in_lem r time value first rest v u f o)
    ]

push_cases :
    (r : RollingTotal) (time value : ℕ)
    → IsValid r
    → (l : List (ℕ × ℕ)) → r.averages ≡ l
    → newest r.averages ≤ time
    → (time - newest r.averages) / r.granularity < 2 ^ 32
    → r.total + value ≤ usize_max
    → Pushed (push r time value) time
push_cases r time value v [] e o k u =
    absurd (subst (λ l. Window r.granularity r.window_size_multiple l) e v.window)
push_cases r time value v (first ∷ rest) e o k u =
    subst (λ l. Pushed (push (record r { averages = l }) time value) time) (sym e)
      (push_first r time value first rest (subst (λ l. IsValid (record r { averages = l })) e v)
        (omega (arith, ap newest e)) (subst (λ l. (time - newest l) / r.granularity < 2 ^ 32) e k)
        u)

-- From a valid window a push keeps the window and its sum, and the last bucket is then the one of
-- the time pushed, where the total fits a `usize`, the clock does not run back and the number of
-- steps fits a `u32`.
pub push-IsValid :
    (r : RollingTotal) (time value : ℕ)
    → IsValid r
    → newest r.averages ≤ time
    → (time - newest r.averages) / r.granularity < 2 ^ 32
    → r.total + value ≤ usize_max
    → Pushed (push r time value) time
push-IsValid r time value v o k u = push_cases r time value v r.averages refl o k u

push-window :
    (r : RollingTotal) (time value : ℕ)
    → (push r time value).window_size_multiple ≡ r.window_size_multiple
unfolding push push_bucket
push-window r time value = by_buckets r.averages
  where
    by_buckets :
        (l : List (ℕ × ℕ))
        → (push (record r { averages = l }) time value).window_size_multiple
          ≡ r.window_size_multiple
    by_buckets [] = refl
    by_buckets (first ∷ rest) =
        either (λ (s : RollingTotal). s.window_size_multiple ≡ r.window_size_multiple)
          (leb r.granularity (time - last_time first rest)) refl refl

-- From a valid window a push leaves no more buckets than the window has steps, where the total fits a
-- `usize`, the clock does not run back and the number of steps fits a `u32`.
pub length-push :
    (r : RollingTotal) (time value : ℕ)
    → IsValid r
    → newest r.averages ≤ time
    → (time - newest r.averages) / r.granularity < 2 ^ 32
    → r.total + value ≤ usize_max
    → length (push r time value).averages ≤ r.window_size_multiple
length-push r time value v o k u =
    let p = push-IsValid r time value v o k u in
    subst (λ w. length (push r time value).averages ≤ w) (push-window r time value)
      (length-window (push r time value) p.valid)
