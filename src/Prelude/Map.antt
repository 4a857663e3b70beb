-- ===== src/Prelude/Map.antt =====
-- `BTreeMap` keyed by numbers: an association list in increasing order of keys.
use Prim.Native.Nat.{ℕ, ◌<◌}
use mathlib.Core.Path.{◌≡◌, refl, subst}
use mathlib.Core.Logic.{inl, inr}
use mathlib.Core.Bool.{Bool}
use mathlib.Core.Option.{Option, none, some}
use mathlib.Core.List.{List, [], ◌∷◌}
use native.Mathlib.Omega.{arith}
use opencode_cycle_plugin.Prelude.Lists.{All}
use opencode_cycle_plugin.Prelude.Set.{All-lt_trans}
use opencode_cycle_plugin.Prelude.Tests.{
  ◌==◌, ==_iff, ltb, ltb→lt, Bool-cases, if◌then◌else◌, is_some,
}

abbrev pub Map {ℓ} : Type ℓ → Type ℓ
Map V = List (ℕ × V)

module _ {ℓ} {V : Type ℓ} where
  unfoldable pub get : ℕ → Map V → Option V
  get k [] = none
  get k ((j, v) ∷ m) = if j == k then some v else get k m

  unfoldable pub insert : ℕ → V → Map V → Map V
  insert k v [] = (k, v) ∷ []
  insert k v ((j, w) ∷ m) =
      if j == k then (k, v) ∷ m else if ltb k j then (k, v) ∷ (j, w) ∷ m else (j, w) ∷ insert k v m

  unfoldable pub remove : ℕ → Map V → Map V
  remove k [] = []
  remove k ((j, w) ∷ m) = let rest = remove k m in if j == k then rest else (j, w) ∷ rest

  abbrev pub contains_key : ℕ → Map V → Bool
  contains_key k m = is_some (get k m)

  abbrev pub values : Map V → List V
  values [] = []
  values ((k, v) ∷ m) = v ∷ values m

  abbrev pub keys : Map V → List ℕ
  keys [] = []
  keys ((k, v) ∷ m) = k ∷ keys m

  pub get-insert :
      (k j : ℕ) (v : V) (m : Map V) → get j (insert k v m) ≡ (if k == j then some v else get j m)
  unfolding get insert
  get-insert k j v [] = refl
  get-insert k j v ((i, w) ∷ m) = ground (arith, get-insert k j v m)

  pub get-remove : (k j : ℕ) (m : Map V) → get j (remove k m) ≡ (if k == j then none else get j m)
  unfolding get remove
  get-remove k j [] = ground arith
  get-remove k j ((i, w) ∷ m) = ground (arith, get-remove k j m)

  -- the keys strictly increase
  abbrev pub IsSorted : Map V → Type 0
  IsSorted [] = Unit
  IsSorted ((k, v) ∷ m) = All (λ j. k < j) (keys m) × IsSorted m

  All-keys-insert :
      (a k : ℕ) (v : V) (m : Map V)
      → a < k
      → All (λ j. a < j) (keys m)
      → All (λ j. a < j) (keys (insert k v m))
  unfolding insert
  All-keys-insert a k v [] h l = (h, tt)
  All-keys-insert a k v ((j, w) ∷ m) h l = elim (Bool-cases (j == k)) [
    | inl same ↦ rw same (h, l.1)
    | inr other ↦ elim (Bool-cases (ltb k j)) [
      | inl below ↦ rw (other, below) (h, (l.0, l.1))
      | inr above ↦ rw (other, above) (l.0, All-keys-insert a k v m h l.1)
    ]
  ]

  pub insert-IsSorted : (k : ℕ) (v : V) (m : Map V) → IsSorted m → IsSorted (insert k v m)
  unfolding insert
  insert-IsSorted k v [] h = (tt, tt)
  insert-IsSorted k v ((j, w) ∷ m) h = elim (Bool-cases (j == k)) [
    | inl same ↦ rw same (subst (λ i. All (λ y. i < y) (keys m)) ((==_iff j k).0 same) h.0, h.1)
    | inr other ↦ elim (Bool-cases (ltb k j)) [
      | inl below ↦
          rw (other, below)
            ((ltb→lt k j below, All-lt_trans k j (keys m) (ltb→lt k j below) h.0), h)
      | inr above ↦
          rw (other, above) (All-keys-insert j k v m (ground arith) h.0, insert-IsSorted k v m h.1)
    ]
  ]

  pub get-none_of_lt : (k j : ℕ) (m : Map V) → k ≡ j → All (λ i. k < i) (keys m) → get j m ≡ none
  unfolding get
  get-none_of_lt k j [] e h = refl
  get-none_of_lt k j ((i, w) ∷ m) e h = ground (arith, get-none_of_lt k j m e)
