-- ===== src/Common/MeanList/Laws.antt =====
-- The bounds of a `MeanList` (backend/common/src/mean_list.rs).
use substation.Prelude.{
  ℕ, zero, suc, ◌+◌, ◌≤◌, ◌<◌, ◌≡◌, refl, Bool, true, ◌&&◌, ◌||◌, List, [], ◌∷◌, length, drop, ltb,
  ◌==◌, arith, length-append, length-set, Bool-cases, ◌⊎◌, inl, inr,
}
use substation.Common.MeanList.{
  Float, MeanList, default, shift_in, push_mean, pair_means, squash_means, squash_if_full,
  accumulate, push, over, cast,
}

-- 1, 2, 4, 8, 16 or 32.
abbrev pub is_ticks : ℕ → Bool
is_ticks n = n == 1 || n == 2 || n == 4 || n == 8 || n == 16 || n == 32

pub record IsValid (m : MeanList) : Type 0 where
  pub slots : length m.means ≡ 20
  pub used : m.mean_index ≤ 20
  pub ticks : is_ticks m.ticks_per_mean ≡ true
  pub unfinished : m.period_count < m.ticks_per_mean

pub default-IsValid : IsValid default
unfolding default
default-IsValid = record {
  slots = refl;
  used = omega arith;
  ticks = refl;
  unfinished = omega arith;
}

length-pair_means : (n : ℕ) (xs : List Float) → length xs ≡ n + n → length (pair_means xs) ≡ n
unfolding pair_means
length-pair_means zero [] h = refl
length-pair_means zero (x ∷ xs) h = absurd (omega (arith, h))
length-pair_means (suc n) [] h = absurd (omega (arith, h))
length-pair_means (suc n) (x ∷ []) h = absurd (omega (arith, h))
length-pair_means (suc n) (x ∷ y ∷ xs) h = omega (arith, length-pair_means n xs (omega (arith, h)))

length-drop :
    (n : ℕ) {A : Type 0} (xs : List A) → n ≤ length xs → length (drop n xs) + n ≡ length xs
length-drop zero xs h = omega arith
length-drop (suc n) [] h = absurd (omega arith)
length-drop (suc n) (x ∷ xs) h = omega (arith, length-drop n xs (omega arith))

-- After the squeeze there is room, or the ticks are at their most.
squash_if_full-IsValid :
    (m : MeanList)
    → IsValid m
    → IsValid (squash_if_full m)
      × ((squash_if_full m).mean_index < 20 ⊎ ((squash_if_full m).ticks_per_mean ≡ 32))
unfolding squash_if_full squash_means
squash_if_full-IsValid m v = elim (Bool-cases (m.mean_index == 20 && ltb m.ticks_per_mean 32)) [
  | inl e ↦
      rw (e, squash_if_full)
        (
          record {
            slots = omega (
              arith,
              length-append (pair_means m.means) (drop 10 m.means),
              length-pair_means 10 m.means v.slots,
              length-drop 10 m.means (omega (arith, v.slots)),
              v.slots,
            );
            used = omega arith;
            ticks = ground (arith, v.ticks);
            unfinished = ground (arith, v.unfinished);
          },
          inl (omega arith),
        )
  | inr e ↦ rw (e, squash_if_full) (v, ground (arith, v.ticks, v.used))
]

-- A push, from a valid list, keeps 20 slots of which at most 20 are used, keeps the number of ticks a power
-- of two that is at most 32, and leaves fewer values in the period than the ticks of a mean.
pub bounds-push : (m : MeanList) (val : Float) → IsValid m → IsValid (push m val).0
unfolding push accumulate push_mean shift_in
bounds-push m val v =
    let s = squash_if_full m in
    let (w, room) = squash_if_full-IsValid m v in
    let a = accumulate s val in
    elim (Bool-cases (a.period_count == a.ticks_per_mean)) [
      | inr e ↦
          rw (e, push)
            (record {
              slots = w.slots;
              used = w.used;
              ticks = w.ticks;
              unfinished = ground (arith, e, w.unfinished);
            })
      | inl e ↦ elim (Bool-cases (a.mean_index == 20 && a.ticks_per_mean == 32)) [
        | inl f ↦
            rw (e, push, f)
              (record {
                slots = omega (
                  arith,
                  length-append (drop 1 s.means) (over a.period_sum (cast a.period_count) ∷ []),
                  length-drop 1 s.means (omega (arith, w.slots)),
                  w.slots,
                );
                used = w.used;
                ticks = w.ticks;
                unfinished = ground (arith, f);
              })
        | inr f ↦
            rw (e, push, f)
              (record {
                slots = omega (
                  arith,
                  length-set s.means s.mean_index (over a.period_sum (cast a.period_count)),
                  w.slots,
                );
                used = ground (arith, f, w.used, room);
                ticks = w.ticks;
                unfinished = ground (arith, w.unfinished);
              })
      ]
    ]
