-- ===== src/Prelude/Count.antt =====
-- How often a number occurs in a list.
use Prim.Native.Nat.{ℕ, ◌+◌}
use mathlib.Core.Path.{◌≡◌, refl}
use mathlib.Core.Bool.{◌||◌}
use mathlib.Core.List.{List, [], ◌∷◌, ◌++◌}
use native.Mathlib.Omega.{arith}
use opencode_cycle_plugin.Prelude.Tests.{◌==◌, ltb, if◌then◌else◌}
use opencode_cycle_plugin.Prelude.Set.{
  contains, insert, Increasing, not-contains_of_lt, All-lt_trans,
}

unfoldable pub count : ℕ → List ℕ → ℕ
count a [] = 0
count a (x ∷ xs) = (if x == a then 1 else 0) + count a xs

pub count-append : (a : ℕ) (xs ys : List ℕ) → count a (xs ++ ys) ≡ count a xs + count a ys
unfolding count
count-append a [] ys = omega arith
count-append a (x ∷ xs) ys = omega (arith, count-append a xs ys)

pub contains-eq-count : (a : ℕ) (xs : List ℕ) → contains a xs ≡ ltb 0 (count a xs)
unfolding contains count
contains-eq-count a [] = refl
contains-eq-count a (x ∷ xs) = ground (arith, contains-eq-count a xs)

pub contains-append :
    (a : ℕ) (xs ys : List ℕ) → contains a (xs ++ ys) ≡ (contains a xs || contains a ys)
unfolding contains
contains-append a [] ys = refl
contains-append a (x ∷ xs) ys = ground (arith, contains-append a xs ys)

-- inserting into a set adds one occurrence, or none if there is one already
pub count-insert :
    (a b : ℕ) (xs : List ℕ)
    → Increasing xs
    → count b (insert a xs) ≡ count b xs + (if a == b then (if contains a xs then 0 else 1) else 0)
unfolding count insert contains
count-insert a b [] h = ground arith
count-insert a b (x ∷ xs) h =
    ground (arith, count-insert a b xs, not-contains_of_lt a a xs refl, All-lt_trans a x xs)
