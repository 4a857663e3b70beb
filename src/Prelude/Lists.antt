-- ===== src/Prelude/Lists.antt =====
-- Lists measured by native numbers, predicates on all elements, and ordered subsequences.
use Prim.Native.Nat.{ℕ, zero, suc, ◌+◌, ◌-◌, min}
use mathlib.Core.Path.{◌≡◌, refl}
use mathlib.Core.Bool.{Bool, true, false, ◌&&◌, ◌||◌}
use mathlib.Core.List.{List, [], ◌∷◌, ◌++◌}
use native.Mathlib.Omega.{arith}

module _ {ℓ} {A : Type ℓ} where
  abbrev pub length : List A → ℕ
  length [] = 0
  length (x ∷ xs) = suc (length xs)

  abbrev pub is_empty : List A → Bool
  is_empty [] = true
  is_empty (x ∷ xs) = false

  abbrev pub take : ℕ → List A → List A
  take zero xs = []
  take (suc n) [] = []
  take (suc n) (x ∷ xs) = x ∷ take n xs

  abbrev pub drop : ℕ → List A → List A
  drop zero xs = xs
  drop (suc n) [] = []
  drop (suc n) (x ∷ xs) = drop n xs

  abbrev pub all : (A → Bool) → List A → Bool
  all p [] = true
  all p (x ∷ xs) = p x && all p xs

  abbrev pub any : (A → Bool) → List A → Bool
  any p [] = false
  any p (x ∷ xs) = p x || any p xs

  pub length-append : (xs ys : List A) → length (xs ++ ys) ≡ length xs + length ys
  length-append [] ys = omega arith
  length-append (x ∷ xs) ys = omega (arith, length-append xs ys)

module _ {ℓ} {A : Type ℓ} where
  pub take-append-drop : (n : ℕ) (xs : List A) → take n xs ++ drop n xs ≡ xs
  take-append-drop zero xs = refl
  take-append-drop (suc n) [] = refl
  take-append-drop (suc n) (x ∷ xs) = rw (take-append-drop n xs)

  pub length-take : (n : ℕ) (xs : List A) → length (take n xs) ≡ min n (length xs)
  length-take zero xs = omega arith
  length-take (suc n) [] = omega arith
  length-take (suc n) (x ∷ xs) = omega (arith, length-take n xs)

  pub length-drop : (n : ℕ) (xs : List A) → length (drop n xs) ≡ length xs - n
  length-drop zero xs = omega arith
  length-drop (suc n) [] = omega arith
  length-drop (suc n) (x ∷ xs) = omega (arith, length-drop n xs)

-- A predicate on every element, by recursion: it computes to tuples.
abbrev pub All {ℓ κ} : {A : Type ℓ} → (A → Type κ) → List A → Type κ
All P [] = Unit
All P (x ∷ xs) = P x × All P xs

pub All-map {ℓ} :
    {A : Type ℓ} (P Q : A → Type 0) → ((a : A) → P a → Q a) → (xs : List A) → All P xs → All Q xs
All-map P Q f [] h = h
All-map P Q f (x ∷ xs) h = (f x h.0, All-map P Q f xs h.1)

pub All_both {ℓ} :
    {A : Type ℓ} (P Q R : A → Type 0)
    → ((a : A) → P a → Q a → R a)
    → (xs : List A) → All P xs
    → All Q xs
    → All R xs
All_both P Q R f [] h k = tt
All_both P Q R f (x ∷ xs) h k = (f x h.0 k.0, All_both P Q R f xs h.1 k.1)

-- `Occur xs ys`: the elements of `xs` occur in `ys` in that order.
pub data Occur {ℓ} {A : Type ℓ} : List A → List A → Type ℓ where
  done : {ys : List A} → Occur [] ys
  skip : {xs ys : List A} (y : A) → Occur xs ys → Occur xs (y ∷ ys)
  keep : {xs ys : List A} (y : A) → Occur xs ys → Occur (y ∷ xs) (y ∷ ys)

module _ {ℓ} {A : Type ℓ} where
  pub Occur-append_right : {xs ys : List A} (zs : List A) → Occur xs ys → Occur xs (ys ++ zs)
  Occur-append_right zs done = done
  Occur-append_right zs (skip y o) = skip y (Occur-append_right zs o)
  Occur-append_right zs (keep y o) = keep y (Occur-append_right zs o)

  pub Occur-last : (ys : List A) (z : A) → Occur (z ∷ []) (ys ++ z ∷ [])
  Occur-last [] z = keep z done
  Occur-last (y ∷ ys) z = skip y (Occur-last ys z)

  pub Occur-snoc : {xs ys : List A} (z : A) → Occur xs ys → Occur (xs ++ z ∷ []) (ys ++ z ∷ [])
  Occur-snoc {ys = ys} z done = Occur-last ys z
  Occur-snoc z (skip y o) = skip y (Occur-snoc z o)
  Occur-snoc z (keep y o) = keep y (Occur-snoc z o)
