-- ===== src/Daemon/Queues/Waiting.antt =====
-- What `reap` restores in the queues, crates/workflowd/src/admission.rs.
use opencode_cycle_plugin.Prelude.{
  ℕ, ◌≡◌, Bool, true, ◌&&◌, List, [], ◌∷◌, Option, none, some, arith, ◌==◌, Bool-cases, All,
  All-map, All_both, inl, inr, is_empty, not, is_some_elim,
}
use opencode_cycle_plugin.Prelude.Map
use opencode_cycle_plugin.Prelude.Map.{Map}
use opencode_cycle_plugin.Daemon.Queues.{
  RuntimeAdmission, retain, keep, is_key, reap, repair_queue_invariants, clean_queues,
}
use opencode_cycle_plugin.Daemon.Queues.Entries.{
  AreOwned, AreOwners, AreQueued, queued_from-AreOwners, queued_from-All,
}

module _ {V : Type 0} where
  get-retain :
      (f : ℕ → V → Bool) (k : ℕ) (v : V) (m : Map V)
      → Map.get k m ≡ some v
      → f k v ≡ true
      → Map.get k (retain f m) ≡ some v
  unfolding Map.get retain
  get-retain f k v [] h e = cc
  get-retain f k v ((j, w) ∷ m) h e = elim (Bool-cases (j == k)) [
    | inl same ↦ grind arith
    | inr other ↦ elim (Bool-cases (f j w)) [
      | inl kept ↦ ground (arith, get-retain f k v m)
      | inr dropped ↦ ground (arith, get-retain f k v m)
    ]
  ]

  retain_All : (P : ℕ × V → Type 0) (f : ℕ → V → Bool) (m : Map V) → All P m → All P (retain f m)
  unfolding retain
  retain_All P f [] h = h
  retain_All P f ((k, v) ∷ m) h = elim (Bool-cases (f k v)) [
    | inl kept ↦ rw kept (h.0, retain_All P f m h.1)
    | inr dropped ↦ rw dropped (retain_All P f m h.1)
  ]

keep-All : (f : ℕ → Bool) (xs : List ℕ) → All (λ x. f x ≡ true) (keep f xs)
unfolding keep
keep-All f [] = tt
keep-All f (x ∷ xs) = elim (Bool-cases (f x)) [
  | inl kept ↦ rw kept (kept, keep-All f xs)
  | inr dropped ↦ rw dropped (keep-All f xs)
]

-- every workflow in the queue of `project` waits, and for that project
abbrev pub AreWaiting : Map ℕ → Map ℕ → ℕ × List ℕ → Type 0
AreWaiting waiting owners (project, queue) =
    All (λ w. (Map.contains_key w waiting ≡ true) × (Map.get w owners ≡ some project)) queue

is_key-some : (o : Option ℕ) (p : ℕ) → is_key o p ≡ true → o ≡ some p
is_key-some none p h = cc
is_key-some (some q) p h = ground (arith, h)

-- the test by which `repair_queue_invariants` keeps a queued workflow
abbrev stays : Map ℕ → Map ℕ → ℕ → ℕ → Bool
stays waiting owners project w = Map.contains_key w waiting && is_key (Map.get w owners) project

abbrev Stay : Map ℕ → Map ℕ → ℕ × List ℕ → Type 0
Stay waiting owners (project, queue) = All (λ w. stays waiting owners project w ≡ true) queue

clean_queues-All :
    (waiting owners : Map ℕ) (projects : Map (List ℕ))
    → All (Stay waiting owners) (clean_queues waiting owners projects)
unfolding clean_queues
clean_queues-All waiting owners [] = tt
clean_queues-All waiting owners ((project, queue) ∷ rest) =
    (keep-All (stays waiting owners project) queue, clean_queues-All waiting owners rest)

stays_owner :
    (waiting owners : Map ℕ) (project w : ℕ)
    → stays waiting owners project w ≡ true
    → (Map.contains_key w waiting ≡ true) × (Map.get w owners ≡ some project)
stays_owner waiting owners project w h =
    (ground (arith, h), is_key-some (Map.get w owners) project (ground (arith, h)))

module _ (waiting owners queued : Map ℕ) where
  -- what `repair_queue_invariants` keeps of the two maps
  abbrev still_waiting : Map ℕ
  still_waiting = retain (λ w expiry. Map.contains_key w queued) waiting

  abbrev still_owned : Map ℕ
  still_owned = retain (λ w p. is_key (Map.get w queued) p) owners

  workflow_waits :
      (project w : ℕ)
      → AreOwners owners queued
      → stays waiting owners project w ≡ true
      → Map.contains_key w queued ≡ true
      → (Map.contains_key w still_waiting ≡ true) × (Map.get w still_owned ≡ some project)
  workflow_waits project w sound stay h =
      let (owner, found) = is_some_elim (Map.get w queued) h in
      let (expiry, waits) =
        is_some_elim (Map.get w waiting) (stays_owner waiting owners project w stay).0 in
      (
        ground (arith, get-retain (λ w expiry. Map.contains_key w queued) w expiry waiting waits h),
        get-retain (λ w p. is_key (Map.get w queued) p) w project owners
            (stays_owner waiting owners project w stay).1
            (grind (arith, sound w owner found, (stays_owner waiting owners project w stay).1)),
      )

  queue_waits :
      AreOwners owners queued
      → (entry : ℕ × List ℕ) → Stay waiting owners entry
      → AreQueued queued entry
      → AreWaiting still_waiting still_owned entry
  queue_waits sound (project, queue) stay h =
      All_both _ _ _ (λ w s q. workflow_waits project w sound s q) queue stay h

stays-AreOwned :
    (waiting owners : Map ℕ) (entry : ℕ × List ℕ)
    → Stay waiting owners entry
    → AreOwned owners entry
stays-AreOwned waiting owners (project, queue) h =
    All-map _ _ (λ w s. (stays_owner waiting owners project w s).1) queue h

module _ {Cpu : Type 0} where
  repair-AreWaiting :
      (a : RuntimeAdmission Cpu)
      → let b = repair_queue_invariants a in
        All (AreWaiting b.waiting b.workflow_projects) b.projects
  unfolding repair_queue_invariants Map.get
  repair-AreWaiting a =
      let stay =
        retain_All _ (λ project queue. not (is_empty queue)) _
          (clean_queues-All a.waiting a.workflow_projects a.projects) in
      All_both _ _ _
        (queue_waits a.waiting a.workflow_projects _ (
          queued_from-AreOwners a.workflow_projects _ []
            (All-map _ _ (stays-AreOwned a.waiting a.workflow_projects) _ stay) (λ w p e. cc)))
        _ stay (queued_from-All _ [])

  -- Whatever the queues held before, after `reap` every workflow in the queue of a project waits, and
  -- it waits for that project: an entry that an admission left behind, or whose workflow gave up, is
  -- gone before the next turn is decided.
  pub reap-AreWaiting :
      (a : RuntimeAdmission Cpu) (now : ℕ)
      → All (AreWaiting (reap a now).waiting (reap a now).workflow_projects) (reap a now).projects
  unfolding reap
  reap-AreWaiting a now = repair-AreWaiting _
