-- ===== src/Core/Chain/Roster.antt =====
-- What the statistics of a chain see of its map of nodes, and how that moves with the map.
use substation.Prelude.{
  ℕ, zero, suc, ◌≡◌, refl, ap, List, [], ◌∷◌, Option, none, some, get_elem?, set, arith,
}
use substation.Common.DenseMap.{DenseMap}
use substation.Common.DenseMap
use substation.Common.DenseMap.Laws as DenseLaws
use substation.Common.DenseMap.Laws.{occupied, retired-free, get-slot}
use substation.Core.ChainStats.Tallies.{Traits, traits_of}
use substation.Core.Counter.Tally.{Gains, Gains-set, Gains-snoc, Gains-vacate, weigh}
use substation.Core.Node.{Node}

abbrev pub traits : Node → Traits
traits n = traits_of n.details n.hwbench

abbrev pub roster : List (Option Node) → List (Option Traits)
roster [] = []
roster (none ∷ xs) = none ∷ roster xs
roster (some n ∷ xs) = some (traits n) ∷ roster xs

pub roster-occupied : (xs : List (Option Node)) → occupied (roster xs) ≡ occupied xs
roster-occupied [] = refl
roster-occupied (none ∷ xs) = roster-occupied xs
roster-occupied (some n ∷ xs) = ap suc (roster-occupied xs)

weigh-roster :
    (h : Traits → ℕ) (xs : List (Option Node)) → weigh h (roster xs) ≡ weigh (λ n. h (traits n)) xs
weigh-roster h [] = refl
weigh-roster h (none ∷ xs) = weigh-roster h xs
weigh-roster h (some n ∷ xs) = omega (arith, weigh-roster h xs)

Gains-roster :
    (xs ys : List (Option Node)) (n : Node)
    → Gains xs n ys
    → Gains (roster xs) (traits n) (roster ys)
Gains-roster xs ys n g h =
    omega (arith, weigh-roster h xs, weigh-roster h ys, g (λ m. h (traits m)))

-- A node that is written back with the same traits is not seen.
pub roster-set :
    (xs : List (Option Node)) (i : ℕ) (node old : Node)
    → get_elem? xs i ≡ some (some old)
    → traits node ≡ traits old
    → roster (set xs i (some node)) ≡ roster xs
roster-set [] i node old e t = refl
roster-set (none ∷ xs) zero node old e t = cc
roster-set (some n ∷ xs) zero node old e t = cc
roster-set (none ∷ xs) (suc i) node old e t = ap (λ r. none ∷ r) (roster-set xs i node old e t)
roster-set (some n ∷ xs) (suc i) node old e t =
    ap (λ r. some (traits n) ∷ r) (roster-set xs i node old e t)

Gains-add_cases :
    (m : DenseMap Node) (x : Node) (r : List ℕ)
    → DenseLaws.IsValid m
    → m.retired ≡ r
    → Gains m.items x (DenseMap.add m x).0.items
unfolding DenseMap.add
Gains-add_cases m x [] v e = rw (e, DenseMap.add) (Gains-snoc m.items x)
Gains-add_cases m x (i ∷ rest) v e =
    rw (e, DenseMap.add) (Gains-set m.items i x (retired-free m i rest v e))

pub Gains-add :
    (m : DenseMap Node) (x : Node)
    → DenseLaws.IsValid m
    → Gains (roster m.items) (traits x) (roster (DenseMap.add m x).0.items)
Gains-add m x v =
    Gains-roster m.items (DenseMap.add m x).0.items x (Gains-add_cases m x m.retired v refl)

pub Gains-remove :
    (m : DenseMap Node) (i : ℕ) (x : Node)
    → DenseMap.get m i ≡ some x
    → Gains (roster (DenseMap.remove m i).0.items) (traits x) (roster m.items)
unfolding DenseMap.remove
Gains-remove m i x e =
    rw (e, DenseMap.remove)
      (Gains-roster (set m.items i none) m.items x (Gains-vacate m.items i x (get-slot m i x e)))

-- The slots without the node, from which either node makes the slots before and after a write.
pub Gains-put :
    (m : DenseMap Node) (i : ℕ) (node old : Node)
    → DenseMap.get m i ≡ some old
    → let mid = roster (set m.items i none) in
      Gains mid (traits old) (roster m.items)
      × Gains mid (traits node) (roster (DenseMap.put m i node).items)
unfolding DenseMap.put
Gains-put m i node old e = (
  Gains-roster (set m.items i none) m.items old (Gains-vacate m.items i old (get-slot m i old e)),
  Gains-roster (set m.items i none) (set m.items i (some node)) node
      (set-Gains m.items i (get-slot m i old e)),
)
  where
    set-Gains :
        (xs : List (Option Node)) (i : ℕ)
        → get_elem? xs i ≡ some (some old)
        → Gains (set xs i none) node (set xs i (some node))
    set-Gains [] i e h = cc
    set-Gains (none ∷ xs) zero e h = refl
    set-Gains (some n ∷ xs) zero e h = refl
    set-Gains (none ∷ xs) (suc i) e h = set-Gains xs i e h
    set-Gains (some n ∷ xs) (suc i) e h = omega (arith, set-Gains xs i e h)
