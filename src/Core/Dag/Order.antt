-- ===== src/Core/Dag/Order.antt =====
-- What the topological sort keeps between two rounds (crates/workflow-core/src/dag.rs).
use mathlib.Core.List.{append-nil, append_assoc}
use opencode_cycle_plugin.Prelude.{
  ℕ, ◌+◌, ◌≡◌, refl, subst, inl, inr, Bool, true, false, ◌||◌, Option, none, some, List, [], ◌∷◌,
  ◌++◌, arith, ◌==◌, ==_iff, if◌then◌else◌, length, Bool-cases, Option-cases, is_some,
}
use opencode_cycle_plugin.Prelude.Map
use opencode_cycle_plugin.Prelude.Map.{Map}
use opencode_cycle_plugin.Prelude.Set
use opencode_cycle_plugin.Prelude.Set.{Increasing}
use opencode_cycle_plugin.Prelude.Count.{count, contains-append}
use opencode_cycle_plugin.Core.Dag.{TaskId, TaskNode, listed, dependents}
use opencode_cycle_plugin.Core.Dag.Scan.{
  find, Distinct, dependencies_in, count-dependents_from, Fits,
}

-- how many dependencies are not among the tasks `done`
unfoldable pub unmet : List TaskId → List TaskId → ℕ
unmet done [] = 0
unmet done (d ∷ ds) = (if Set.contains d done then 0 else 1) + unmet done ds

-- whether a task of the graph has all its dependencies among the tasks `done`
abbrev pub settled : List TaskNode → List TaskId → TaskId → Bool
settled ns done x = elim (find x ns) [ none ↦ false | some n ↦ unmet done n.dependencies == 0 ]

abbrev pub degree_of : List TaskNode → List TaskId → TaskId → Option ℕ
degree_of ns done x = elim (find x ns) [ none ↦ none | some n ↦ some (unmet done n.dependencies) ]

-- Each task of the list comes once, behind all its dependencies.
abbrev pub Topological : List TaskNode → List TaskId → List TaskId → Type 0
Topological ns before [] = Unit
Topological ns before (x ∷ xs) =
    (settled ns before x ≡ true)
    × (Set.contains x before ≡ false)
    × Topological ns (before ++ x ∷ []) xs

-- the nodes that are not among the tasks `done`
unfoldable pub remaining : List TaskId → List TaskNode → ℕ
remaining done [] = 0
remaining done (n ∷ ns) = (if Set.contains n.id done then 0 else 1) + remaining done ns

pub unmet_nil : (ds : List TaskId) → unmet [] ds ≡ length ds
unfolding unmet Set.contains
unmet_nil [] = refl
unmet_nil (d ∷ ds) = omega (arith, unmet_nil ds)

pub contains-snoc :
    (x t : TaskId) (done : List TaskId)
    → Set.contains x (done ++ t ∷ []) ≡ (Set.contains x done || t == x)
unfolding Set.contains
contains-snoc x t done = ground (arith, contains-append x done (t ∷ []))

pub unmet-snoc :
    (t : TaskId) (done ds : List TaskId)
    → Set.contains t done ≡ false
    → unmet (done ++ t ∷ []) ds + count t ds ≡ unmet done ds
unfolding unmet count
unmet-snoc t done [] h = omega arith
unmet-snoc t done (d ∷ ds) h = ground (arith, contains-snoc d t done, unmet-snoc t done ds h)

pub remaining-snoc :
    (t : TaskId) (done : List TaskId) (ns : List TaskNode)
    → Distinct ns
    → Set.contains t done ≡ false
    → remaining (done ++ t ∷ []) ns + (if is_some (find t ns) then 1 else 0) ≡ remaining done ns
unfolding remaining
remaining-snoc t done [] dist h = omega arith
remaining-snoc t done (n ∷ ns) dist h = elim (Bool-cases (n.id == t)) [
  | inl same ↦
      let absent = subst (λ y. find y ns ≡ none) ((==_iff n.id t).0 same) dist.0 in
      ground (arith, contains-snoc n.id t done, remaining-snoc t done ns dist.1 h)
  | inr other ↦ ground (arith, contains-snoc n.id t done, remaining-snoc t done ns dist.1 h)
]

pub Topological-snoc :
    (ns : List TaskNode) (before xs : List TaskId) (t : TaskId)
    → Topological ns before xs
    → settled ns (before ++ xs) t ≡ true
    → Set.contains t (before ++ xs) ≡ false
    → Topological ns before (xs ++ t ∷ [])
Topological-snoc ns before [] t h s c = (rw append-nil at s, rw append-nil at c, tt)
Topological-snoc ns before (x ∷ xs) t h s c = (
  h.0,
  h.1,
  Topological-snoc ns (before ++ x ∷ []) xs t h.2 (rw append_assoc s) (rw append_assoc c),
)

module _ (ns : List TaskNode) (distinct : Distinct ns) where
  abbrev pub edges : Map (List TaskId)
  edges = dependents [] ns

  -- what holds between two rounds of the loop
  pub record Inv (degrees : Map ℕ) (ready done : List TaskId) : Type 0 where
    pub increasing : Increasing ready
    pub degree : (x : TaskId) → Map.get x degrees ≡ degree_of ns done x
    pub member : (x : TaskId) → (Set.contains x ready || Set.contains x done) ≡ settled ns done x
    pub apart : (x : TaskId) → Set.contains x ready ≡ true → Set.contains x done ≡ false
    pub ordered : Topological ns [] done
    pub left : remaining done ns + length done ≡ length ns

  pub count-edges : (x t : TaskId) → count x (listed t edges) ≡ count t (dependencies_in ns x)
  unfolding Map.get count
  count-edges x t = omega (arith, count-dependents_from x t ns [] distinct)

  pub Inv-Fits :
      (degrees : Map ℕ) (t : TaskId) (ready done : List TaskId)
      → Inv degrees (t ∷ ready) done
      → Set.contains t done ≡ false
      → Fits (listed t edges) degrees
  Inv-Fits degrees t ready done inv new x h = elim (Option-cases (find x ns)) [
    | inl absent ↦ absurd (unfold count in ground (arith, count-edges x t))
    | inr (n, found) ↦ (
      unmet done n.dependencies,
      ground (arith, inv.degree x),
      ground (arith, count-edges x t, unmet-snoc t done n.dependencies new),
    )
  ]
