-- ===== src/Daemon/Queues/Entries.antt =====
-- The queued workflows as one map, in `repair_queue_invariants` of crates/workflowd/src/admission.rs.
use opencode_cycle_plugin.Prelude.{
  ℕ, ◌≡◌, true, List, [], ◌∷◌, some, arith, ◌==◌, Bool-cases, All, All-map, inl, inr,
}
use opencode_cycle_plugin.Prelude.Map
use opencode_cycle_plugin.Prelude.Map.{Map}
use opencode_cycle_plugin.Daemon.Queues.{queued_from, queue_entries}

module _ (owners : Map ℕ) where
  -- the workflows of a queue belong to its project
  abbrev pub AreOwned : ℕ × List ℕ → Type 0
  AreOwned (project, queue) = All (λ w. Map.get w owners ≡ some project) queue

  abbrev pub AreOwners : Map ℕ → Type 0
  AreOwners m = (w p : ℕ) → Map.get w m ≡ some p → Map.get w owners ≡ some p

  insert-AreOwners :
      (w project : ℕ) (m : Map ℕ)
      → Map.get w owners ≡ some project
      → AreOwners m
      → AreOwners (Map.insert w project m)
  insert-AreOwners w project m owned h v p e = elim (Bool-cases (w == v)) [
    | inl same ↦ grind (arith, Map.get-insert w v project m)
    | inr other ↦ h v p (ground (arith, Map.get-insert w v project m, e, other))
  ]

  queue_entries-AreOwners :
      (project : ℕ) (queue : List ℕ) (m : Map ℕ)
      → All (λ w. Map.get w owners ≡ some project) queue
      → AreOwners m
      → AreOwners (queue_entries project queue m)
  unfolding queue_entries
  queue_entries-AreOwners project [] m owned h = h
  queue_entries-AreOwners project (w ∷ ws) m owned h =
      queue_entries-AreOwners project ws _ owned.1 (insert-AreOwners w project m owned.0 h)

  pub queued_from-AreOwners :
      (queues : Map (List ℕ)) (m : Map ℕ)
      → All AreOwned queues
      → AreOwners m
      → AreOwners (queued_from queues m)
  unfolding queued_from
  queued_from-AreOwners [] m owned h = h
  queued_from-AreOwners ((project, queue) ∷ rest) m owned h =
      queued_from-AreOwners rest _ owned.1 (queue_entries-AreOwners project queue m owned.0 h)

-- the collected map has what it had, and every queued workflow
queue_entries-contains :
    (project : ℕ) (queue : List ℕ) (m : Map ℕ) (w : ℕ)
    → Map.contains_key w m ≡ true
    → Map.contains_key w (queue_entries project queue m) ≡ true
unfolding queue_entries
queue_entries-contains project [] m w h = h
queue_entries-contains project (v ∷ vs) m w h =
    queue_entries-contains project vs (Map.insert v project m) w
      (ground (arith, Map.get-insert v w project m, h))

queue_entries-All :
    (project : ℕ) (queue : List ℕ) (m : Map ℕ)
    → All (λ w. Map.contains_key w (queue_entries project queue m) ≡ true) queue
unfolding queue_entries
queue_entries-All project [] m = tt
queue_entries-All project (w ∷ ws) m = (
  queue_entries-contains project ws (Map.insert w project m) w
      (ground (arith, Map.get-insert w w project m)),
  queue_entries-All project ws _,
)

queued_from-contains :
    (queues : Map (List ℕ)) (m : Map ℕ) (w : ℕ)
    → Map.contains_key w m ≡ true
    → Map.contains_key w (queued_from queues m) ≡ true
unfolding queued_from
queued_from-contains [] m w h = h
queued_from-contains ((project, queue) ∷ rest) m w h =
    queued_from-contains rest _ w (queue_entries-contains project queue m w h)

abbrev pub AreQueued : Map ℕ → ℕ × List ℕ → Type 0
AreQueued queued (project, queue) = All (λ w. Map.contains_key w queued ≡ true) queue

pub queued_from-All :
    (queues : Map (List ℕ)) (m : Map ℕ) → All (AreQueued (queued_from queues m)) queues
unfolding queued_from
queued_from-All [] m = tt
queued_from-All ((project, queue) ∷ rest) m = (
  All-map _ _ (λ w h. queued_from-contains rest _ w h) queue (queue_entries-All project queue m),
  queued_from-All rest _,
)
