-- ===== src/Prelude/Set.antt =====
-- `BTreeSet` of numbers: a list in strictly increasing order.
use Prim.Native.Nat.{ℕ, ◌<◌}
use mathlib.Core.Path.{◌≡◌, refl}
use mathlib.Core.Bool.{Bool, false, ◌||◌}
use mathlib.Core.List.{List, [], ◌∷◌}
use native.Mathlib.Omega.{arith}
use opencode_cycle_plugin.Prelude.Tests.{◌==◌, ltb, if◌then◌else◌}
use opencode_cycle_plugin.Prelude.Lists.{All}

-- membership, in a set or in any list
unfoldable pub contains : ℕ → List ℕ → Bool
contains a [] = false
contains a (x ∷ xs) = x == a || contains a xs

unfoldable pub insert : ℕ → List ℕ → List ℕ
insert a [] = a ∷ []
insert a (x ∷ xs) = if x == a then x ∷ xs else if ltb a x then a ∷ x ∷ xs else x ∷ insert a xs

-- `collect::<BTreeSet<_>>()`
unfoldable pub collect : List ℕ → List ℕ
collect [] = []
collect (x ∷ xs) = insert x (collect xs)

abbrev pub Increasing : List ℕ → Type 0
Increasing [] = Unit
Increasing (x ∷ xs) = All (λ y. x < y) xs × Increasing xs

pub contains-insert : (a b : ℕ) (xs : List ℕ) → contains b (insert a xs) ≡ (a == b || contains b xs)
unfolding contains insert
contains-insert a b [] = refl
contains-insert a b (x ∷ xs) = ground (arith, contains-insert a b xs)

pub contains-collect : (a : ℕ) (xs : List ℕ) → contains a (collect xs) ≡ contains a xs
unfolding collect contains
contains-collect a [] = refl
contains-collect a (x ∷ xs) =
    ground (arith, contains-insert x a (collect xs), contains-collect a xs)

pub All-lt_trans : (a b : ℕ) (xs : List ℕ) → a < b → All (λ y. b < y) xs → All (λ y. a < y) xs
All-lt_trans a b [] h k = tt
All-lt_trans a b (x ∷ xs) h k = (omega arith, All-lt_trans a b xs h k.1)

All-lt-insert :
    (a b : ℕ) (xs : List ℕ) → b < a → All (λ y. b < y) xs → All (λ y. b < y) (insert a xs)
unfolding insert
All-lt-insert a b [] h k = (h, tt)
All-lt-insert a b (x ∷ xs) h k = ground (arith, All-lt-insert a b xs)

pub insert-Increasing : (a : ℕ) (xs : List ℕ) → Increasing xs → Increasing (insert a xs)
unfolding insert
insert-Increasing a [] h = (tt, tt)
insert-Increasing a (x ∷ xs) h =
    ground (arith, insert-Increasing a xs, All-lt-insert a x xs, All-lt_trans a x xs)

pub collect-Increasing : (xs : List ℕ) → Increasing (collect xs)
unfolding collect
collect-Increasing [] = tt
collect-Increasing (x ∷ xs) = insert-Increasing x (collect xs) (collect-Increasing xs)

pub not-contains_of_lt :
    (a b : ℕ) (xs : List ℕ) → a ≡ b → All (λ y. b < y) xs → contains a xs ≡ false
unfolding contains
not-contains_of_lt a b [] e h = refl
not-contains_of_lt a b (x ∷ xs) e h = ground (arith, not-contains_of_lt a b xs e)
