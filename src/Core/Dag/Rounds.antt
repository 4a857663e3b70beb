-- ===== src/Core/Dag/Rounds.antt =====
-- The topological sort never panics, ends, and orders the tasks (crates/workflow-core/src/dag.rs).
use opencode_cycle_plugin.Prelude.{
  ℕ, zero, suc, ◌+◌, ◌<◌, ◌≡◌, refl, ◌∙◌, inl, inr, true, false, ◌||◌, some, List, [], ◌∷◌, ◌++◌,
  arith, length, length-append, Option-cases,
}
use opencode_cycle_plugin.Prelude.Map
use opencode_cycle_plugin.Prelude.Map.{Map}
use opencode_cycle_plugin.Prelude.Set
use opencode_cycle_plugin.Prelude.Set.{Increasing}
use opencode_cycle_plugin.Prelude.Count.{count}
use opencode_cycle_plugin.Core.Dag.{TaskId, TaskNode, listed, scan, drain}
use opencode_cycle_plugin.Core.Dag.Scan.{
  find, Distinct, dependencies_in, lowered, hits, Scanned, scan_lem,
}
use opencode_cycle_plugin.Core.Dag.Order.{
  unmet, settled, degree_of, Topological, remaining, contains-snoc, unmet-snoc, remaining-snoc,
  Topological-snoc, edges, Inv, count-edges, Inv-Fits,
}

module _ (ns : List TaskNode) (distinct : Distinct ns) where
  -- the popped task has its dependencies done, and was not done itself
  Inv-head :
      (degrees : Map ℕ) (t : TaskId) (ready done : List TaskId)
      → Inv ns distinct degrees (t ∷ ready) done
      → (settled ns done t ≡ true) × (Set.contains t done ≡ false)
  unfolding Set.contains
  Inv-head degrees t ready done inv = ground (arith, inv.member t, inv.apart t)

  -- the popped task is met by those that wait for it, as often as they name it
  unmet-pop :
      (x t : TaskId) (done : List TaskId)
      → Set.contains t done ≡ false
      → unmet (done ++ t ∷ []) (dependencies_in ns x) + count x (listed t (edges ns distinct))
        ≡ unmet done (dependencies_in ns x)
  unmet-pop x t done new =
      omega (arith, unmet-snoc t done (dependencies_in ns x) new, count-edges ns distinct x t)

  degree-step :
      (degrees : Map ℕ) (t : TaskId) (done : List TaskId) (x : TaskId)
      → Map.get x degrees ≡ degree_of ns done x
      → Set.contains t done ≡ false
      → lowered (count x (listed t (edges ns distinct))) (Map.get x degrees)
        ≡ degree_of ns (done ++ t ∷ []) x
  degree-step degrees t done x e new = ground (arith, unmet-pop x t done new)

  -- what `scan` makes ready is what the popped task settles
  settled-step :
      (degrees : Map ℕ) (t : TaskId) (done : List TaskId) (x : TaskId)
      → Map.get x degrees ≡ degree_of ns done x
      → Set.contains t done ≡ false
      → settled ns (done ++ t ∷ []) x
        ≡ (settled ns done x || hits (count x (listed t (edges ns distinct))) (Map.get x degrees))
  settled-step degrees t done x e new = elim (Option-cases (find x ns)) [
    | inl absent ↦ ground arith
    | inr (n, found) ↦ ground (arith, unmet-pop x t done new)
  ]

  hits-step :
      (degrees : Map ℕ) (t : TaskId) (done : List TaskId) (x : TaskId)
      → Map.get x degrees ≡ degree_of ns done x
      → settled ns done x ≡ true
      → Set.contains t done ≡ false
      → hits (count x (listed t (edges ns distinct))) (Map.get x degrees) ≡ false
  hits-step degrees t done x e st new = elim (Option-cases (find x ns)) [
    | inl absent ↦ ground arith
    | inr (n, found) ↦ ground (arith, unmet-pop x t done new)
  ]

  Inv-step :
      (degrees : Map ℕ) (t : TaskId) (ready done : List TaskId) (d : Map ℕ) (r : List TaskId)
      → Inv ns distinct degrees (t ∷ ready) done
      → Scanned (listed t (edges ns distinct)) degrees ready d r
      → Inv ns distinct d r (done ++ t ∷ [])
  unfolding Set.contains
  Inv-step degrees t ready done d r inv s =
      let (settled_t, new) = Inv-head degrees t ready done inv in
      record {
        increasing = s.increasing;
        degree = λ x. s.degree x ∙ degree-step degrees t done x (inv.degree x) new;
        member = λ x. ground (
          arith,
          s.member x,
          inv.member x,
          settled-step degrees t done x (inv.degree x) new,
          contains-snoc x t done,
        );
        apart = λ x. ground (
          arith,
          s.member x,
          inv.member x,
          inv.apart x,
          hits-step degrees t done x (inv.degree x),
          contains-snoc x t done,
          Set.not-contains_of_lt t t ready refl,
        );
        ordered = Topological-snoc ns [] done t inv.ordered settled_t new;
        left =
            ground
              (arith, inv.left, remaining-snoc t done ns distinct new, length-append done (t ∷ []));
      }

  -- what the loop has done when it ends
  pub record Sorted (order : List TaskId) : Type 0 where
    pub closed : (x : TaskId) → Set.contains x order ≡ settled ns order x
    pub ordered : Topological ns [] order
    pub left : remaining order ns + length order ≡ length ns

  drain_round :
      (fuel : ℕ) (degrees d : Map ℕ) (t : TaskId) (ready r done : List TaskId)
      → scan (listed t (edges ns distinct)) degrees ready ≡ some (d, r)
      → drain (suc fuel) (edges ns distinct) degrees (t ∷ ready) done
        ≡ drain fuel (edges ns distinct) d r (done ++ t ∷ [])
  unfolding drain
  drain_round fuel degrees d t ready r done e = rw (e, drain)

  remaining-pop :
      (t : TaskId) (done : List TaskId)
      → settled ns done t ≡ true
      → Set.contains t done ≡ false
      → remaining (done ++ t ∷ []) ns + 1 ≡ remaining done ns
  remaining-pop t done st new = ground (arith, remaining-snoc t done ns distinct new)

  -- Fuel for one round more than there are nodes left is enough.
  pub drain_lem :
      (fuel : ℕ) (degrees : Map ℕ) (ready done : List TaskId)
      → Inv ns distinct degrees ready done
      → remaining done ns < fuel
      → (order : List TaskId) × (drain fuel (edges ns distinct) degrees ready done ≡ some order)
        × Sorted order
  drain_lem zero degrees ready done inv h = elim h [ ]
  drain_lem (suc fuel) degrees [] done inv h = (
    done,
    unfold drain in refl,
    record {
      closed = λ x. unfold Set.contains in inv.member x;
      ordered = inv.ordered;
      left = inv.left;
    },
  )
  drain_lem (suc fuel) degrees (t ∷ ready) done inv h =
      let (st, new) = Inv-head degrees t ready done inv in
      let (d, r, e, s) =
        scan_lem (listed t (edges ns distinct)) degrees ready inv.increasing.1
          (Inv-Fits ns distinct degrees t ready done inv new) in
      let fewer : remaining (done ++ t ∷ []) ns < fuel =
        omega (arith, remaining-pop t done st new) in
      let (order, ends, sorted) =
        drain_lem fuel d r (done ++ t ∷ []) (Inv-step degrees t ready done d r inv s) fewer in
      (order, drain_round fuel degrees d t ready r done e ∙ ends, sorted)
