-- ===== src/Core/Dag/Scan.antt =====
-- The tables of the topological sort and its inner loop (crates/workflow-core/src/dag.rs), by the
-- number of times that each task occurs.
use opencode_cycle_plugin.Prelude.{
  ℕ, suc, ◌+◌, ◌-◌, ◌≤◌, ◌<◌, ◌≡◌, refl, inl, inr, Bool, false, ◌&&◌, ◌||◌, Option, none, some,
  List, [], ◌∷◌, ◌++◌, arith, ltb, ◌==◌, if◌then◌else◌, length, dec_lt, ◌∙◌, Bool-cases, subst,
  ==_iff,
}
use opencode_cycle_plugin.Prelude.Map
use opencode_cycle_plugin.Prelude.Map.{Map}
use opencode_cycle_plugin.Prelude.Set
use opencode_cycle_plugin.Prelude.Set.{Increasing}
use opencode_cycle_plugin.Prelude.Count.{count, count-append}
use opencode_cycle_plugin.Core.Dag.{
  TaskId, TaskNode, indegrees, listed, push_dependent, dependents, scan,
}

-- the node with an id, and whether the ids are distinct
abbrev pub find : TaskId → List TaskNode → Option TaskNode
find x [] = none
find x (n ∷ ns) = if n.id == x then some n else find x ns

abbrev pub Distinct : List TaskNode → Type 0
Distinct [] = Unit
Distinct (n ∷ ns) = (find n.id ns ≡ none) × Distinct ns

abbrev pub dependencies_in : List TaskNode → TaskId → List TaskId
dependencies_in ns x = elim (find x ns) [ none ↦ [] | some n ↦ n.dependencies ]

pub get-indegrees :
    (x : TaskId) (ns : List TaskNode)
    → Map.get x (indegrees ns)
      ≡ (elim (find x ns) [ none ↦ none | some n ↦ some (length n.dependencies) ])
unfolding indegrees Map.get
get-indegrees x [] = refl
get-indegrees x (n ∷ ns) =
    ground (arith, Map.get-insert n.id x (length n.dependencies) (indegrees ns), get-indegrees x ns)

count-push_dependent :
    (x t id : TaskId) (ds : List TaskId) (m : Map (List TaskId))
    → count x (listed t (push_dependent id ds m))
      ≡ count x (listed t m) + (if id == x then count t ds else 0)
unfolding push_dependent count
count-push_dependent x t id [] m = ground arith
count-push_dependent x t id (d ∷ ds) m =
    let m' = Map.insert d (listed d m ++ id ∷ []) m in
    ground (
      arith,
      count-push_dependent x t id ds m',
      Map.get-insert d t (listed d m ++ id ∷ []) m,
      count-append x (listed d m) (id ∷ []),
    )

count-dependencies_in :
    (x t : TaskId) (n : TaskNode) (ns : List TaskNode)
    → Distinct (n ∷ ns)
    → count t (dependencies_in (n ∷ ns) x)
      ≡ (if n.id == x then count t n.dependencies else 0) + count t (dependencies_in ns x)
unfolding count
count-dependencies_in x t n ns h = elim (Bool-cases (n.id == x)) [
  | inl e ↦
      let absent : find x ns ≡ none = subst (λ y. find y ns ≡ none) ((==_iff n.id x).0 e) h.0 in
      ground arith
  | inr e ↦ ground arith
]

pub count-dependents_from :
    (x t : TaskId) (ns : List TaskNode) (m : Map (List TaskId))
    → Distinct ns
    → count x (listed t (dependents m ns)) ≡ count x (listed t m) + count t (dependencies_in ns x)
unfolding dependents
count-dependents_from x t [] m h = unfold count in omega arith
count-dependents_from x t (n ∷ ns) m h = ground (
  arith,
  count-dependents_from x t ns (push_dependent n.id n.dependencies m),
  count-push_dependent x t n.id n.dependencies m,
  count-dependencies_in x t n ns h,
)

-- the degree after `c` decrements, and whether they make a task ready
abbrev pub lowered : ℕ → Option ℕ → Option ℕ
lowered c none = none
lowered c (some k) = some (k - c)

abbrev pub hits : ℕ → Option ℕ → Bool
hits c none = false
hits c (some k) = ltb 0 c && k == c

abbrev pub Fits : List TaskId → Map ℕ → Type 0
Fits ds degrees =
    (x : TaskId) → 0 < count x ds → (k : ℕ) × (Map.get x degrees ≡ some k) × (count x ds ≤ k)

-- what `scan` does to the degrees and to the ready tasks
pub record Scanned (ds : List TaskId) (degrees : Map ℕ) (ready : List TaskId) (d : Map ℕ)
    (r : List TaskId) : Type 0 where
  pub increasing : Increasing r
  pub degree : (x : TaskId) → Map.get x d ≡ lowered (count x ds) (Map.get x degrees)
  pub member :
      (x : TaskId)
      → Set.contains x r ≡ (Set.contains x ready || hits (count x ds) (Map.get x degrees))

abbrev next_ready : ℕ → TaskId → List TaskId → List TaskId
next_ready j d ready = if j == 0 then Set.insert d ready else ready

next_ready-Increasing :
    (j : ℕ) (d : TaskId) (ready : List TaskId)
    → Increasing ready
    → Increasing (next_ready j d ready)
next_ready-Increasing j d ready h = elim (Bool-cases (j == 0)) [
  | inl last ↦ rw last (Set.insert-Increasing d ready h)
  | inr more ↦ rw more h
]

contains-next_ready :
    (j : ℕ) (d x : TaskId) (ready : List TaskId)
    → Set.contains x (next_ready j d ready) ≡ ((j == 0 && d == x) || Set.contains x ready)
contains-next_ready j d x ready = elim (Bool-cases (j == 0)) [
  | inl last ↦ rw last (Set.contains-insert d x ready)
  | inr more ↦ rw more
]

Fits-le :
    (ds : List TaskId) (degrees : Map ℕ) (x j : ℕ)
    → Fits ds degrees
    → Map.get x degrees ≡ some j
    → count x ds ≤ j
Fits-le ds degrees x j fits e = elim (dec_lt 0 (count x ds)) [
  | yes h ↦ let (k, found, enough) = fits x h in ground arith
  | no h ↦ omega arith
]

Fits-cons :
    (d : TaskId) (ds : List TaskId) (j : ℕ) (degrees : Map ℕ)
    → Fits (d ∷ ds) degrees
    → Map.get d degrees ≡ some (suc j)
    → Fits ds (Map.insert d j degrees)
unfolding count
Fits-cons d ds j degrees fits e x h =
    let (k, found, enough) = fits x (ground arith) in
    let at = Map.get-insert d x j degrees in
    elim (Bool-cases (d == x)) [
      | inl same ↦
          let there : Map.get x degrees ≡ some (suc j) =
            subst (λ y. Map.get y degrees ≡ some (suc j)) ((==_iff d x).0 same) e in
          (j, ground arith, ground arith)
      | inr other ↦ (k, ground arith, ground arith)
    ]

Scanned-cons :
    (d : TaskId) (ds : List TaskId) (j : ℕ) (degrees : Map ℕ) (ready : List TaskId) (d' : Map ℕ)
    (r : List TaskId)
    → Map.get d degrees ≡ some (suc j)
    → Scanned ds (Map.insert d j degrees) (next_ready j d ready) d' r
    → Fits ds (Map.insert d j degrees)
    → Scanned (d ∷ ds) degrees ready d' r
unfolding count
Scanned-cons d ds j degrees ready d' r e s fits = record {
  increasing = s.increasing;
  degree = λ x. elim (Bool-cases (d == x)) [
    | inl same ↦
        let there = subst (λ y. Map.get y degrees ≡ some (suc j)) ((==_iff d x).0 same) e in
        ground (arith, s.degree x, Map.get-insert d x j degrees)
    | inr other ↦ ground (arith, s.degree x, Map.get-insert d x j degrees)
  ];
  member = λ x. elim (Bool-cases (d == x)) [
    | inl same ↦
        let there = subst (λ y. Map.get y degrees ≡ some (suc j)) ((==_iff d x).0 same) e in
        ground (
          arith,
          s.member x,
          Map.get-insert d x j degrees,
          contains-next_ready j d x ready,
          Fits-le ds (Map.insert d j degrees) x j fits,
        )
    | inr other ↦
        ground (arith, s.member x, Map.get-insert d x j degrees, contains-next_ready j d x ready)
  ];
}

lowered_zero : (o : Option ℕ) → o ≡ lowered 0 o
lowered_zero none = refl
lowered_zero (some k) = ground arith

hits_zero : (o : Option ℕ) → hits 0 o ≡ false
hits_zero none = refl
hits_zero (some k) = refl

scan-cons :
    (d : TaskId) (ds : List TaskId) (j : ℕ) (degrees : Map ℕ) (ready : List TaskId)
    → Map.get d degrees ≡ some (suc j)
    → scan (d ∷ ds) degrees ready ≡ scan ds (Map.insert d j degrees) (next_ready j d ready)
unfolding scan
scan-cons d ds j degrees ready e = rw (e, scan)

Fits-head :
    (d : TaskId) (ds : List TaskId) (degrees : Map ℕ)
    → Fits (d ∷ ds) degrees
    → (j : ℕ) × (Map.get d degrees ≡ some (suc j))
unfolding count
Fits-head d ds degrees fits =
    let (k, found, enough) = fits d (ground arith) in (k - 1, ground arith)

-- The loop never panics where every dependent has at least as high a degree as it has occurrences.
pub scan_lem :
    (ds : List TaskId) (degrees : Map ℕ) (ready : List TaskId)
    → Increasing ready
    → Fits ds degrees
    → (d : Map ℕ) × (r : List TaskId) × (scan ds degrees ready ≡ some (d, r))
      × Scanned ds degrees ready d r
scan_lem [] degrees ready inc fits = (
  degrees,
  ready,
  unfold scan in refl,
  record {
    increasing = inc;
    degree = λ x. unfold count in lowered_zero (Map.get x degrees);
    member = λ x. unfold count in ground (arith, hits_zero (Map.get x degrees));
  },
)
scan_lem (d ∷ ds) degrees ready inc fits =
    let (j, here) = Fits-head d ds degrees fits in
    let rest = Fits-cons d ds j degrees fits here in
    let (d', r, e, s) =
      scan_lem ds (Map.insert d j degrees) (next_ready j d ready)
        (next_ready-Increasing j d ready inc) rest in
    (
      d',
      r,
      scan-cons d ds j degrees ready here ∙ e,
      Scanned-cons d ds j degrees ready d' r here s rest,
    )
