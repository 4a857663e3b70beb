-- ===== src/Store/Memory.antt =====
-- Whether a store remembers what another does (crates/workflow-store/src).
use Prim.Native.String.{String}
use text.Mathlib.TextEquality.{eq_iff}
use text.Mathlib.Text.{◌==◌ as str_eq}
use opencode_cycle_plugin.Prelude.{
  none, some, ◌∷◌, ◌≡◌, refl, ◌∙◌, subst, inl, inr, ok, ◌>>=◌, arith, Bool-cases, Option-cases,
  Result-cases,
}
use opencode_cycle_plugin.Store.Tables.{Store, Remembered, recall, remember}
use opencode_cycle_plugin.Store.Transactions.{Leaves}

-- `s'` remembers whatever `s` does
pub record Keeps (s s' : Store) : Type 0 where
  pub mode : s'.read_write ≡ s.read_write
  pub recalls :
      (k : String) (r : Remembered)
      → recall k s.remembered ≡ some r
      → recall k s'.remembered ≡ some r

pub Keeps-refl : (s : Store) → Keeps s s
Keeps-refl s = record { mode = refl; recalls = λ k r h. h }

pub Keeps-trans : (s t u : Store) → Keeps s t → Keeps t u → Keeps s u
Keeps-trans s t u p q = record {
  mode = q.mode ∙ p.mode;
  recalls = λ k r h. q.recalls k r (p.recalls k r h);
}

-- a new row hides none: its key was not in use
remember-Keeps :
    (key : String) (r : Remembered) (s s' : Store) → remember key r s ≡ ok s' → Keeps s s'
unfolding remember recall
remember-Keeps key r s s' h = elim (Option-cases (recall key s.remembered)) [
  | inr (old, e) ↦ absurd (ground arith)
  | inl free ↦
      let next : record s { remembered = (key, r) ∷ s.remembered } ≡ s' = ground arith in
      subst (Keeps s) next (record {
        mode = refl;
        recalls = λ k old found. elim (Bool-cases (str_eq key k)) [
          | inl same ↦ absurd (
              let here = subst (λ j. recall j s.remembered ≡ none) ((eq_iff key k).0 same) free in
              ground arith)
          | inr other ↦ ground arith
        ];
      })
]

-- a step that has written rows, and then remembers its answer
pub remember-Leaves :
    {A : Type 0} (key : String) (r : Remembered) (s t : Store) (a : A)
    → Keeps s t
    → Leaves (Keeps s) (remember key r t >>= λ u. ok (u, a))
remember-Leaves key r s t a kept = elim (Result-cases (remember key r t)) [
  | inr (x, e) ↦ rw e tt
  | inl (u, e) ↦ rw e (Keeps-trans s t u kept (remember-Keeps key r t u e))
]

pub recall-remember :
    (key : String) (r : Remembered) (s s' : Store)
    → remember key r s ≡ ok s'
    → (recall key s'.remembered ≡ some r) × (s'.read_write ≡ s.read_write)
unfolding remember recall
recall-remember key r s s' h = let own = (eq_iff key key).1 refl in (ground arith, ground arith)
