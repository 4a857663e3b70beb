-- ===== src/Store/Leases/Review.antt =====
-- A lease whose work may have had effects is not given to another: crates/workflow-store/src/leases.rs.
use opencode_cycle_plugin.Prelude.{
  ℕ, Bool, true, false, not, ◌||◌, Option, none, some, List, [], ◌∷◌, Result, ok, err, ◌≡◌, refl,
  inl, inr, arith, ◌==◌, Bool-cases, ==_iff, ◌⊎◌, ◌≢◌, All, ◌∙◌,
}
use opencode_cycle_plugin.Prelude.Int.{ℤ}
use opencode_cycle_plugin.Prelude.Map
use opencode_cycle_plugin.Prelude.Map.{Map}
use opencode_cycle_plugin.Core.Lease
use opencode_cycle_plugin.Core.Lease.{Lease, LeaseError, ActionSafety, reconcile}
use opencode_cycle_plugin.Store.Leases.{
  LeaseTable, LeaseStatus, active, uncertain, acquire_lease, acquire_at, insert_lease,
  heartbeat_lease, heartbeat_at, renew, refresh, find_active, is_uncertain, needs_review, is_active,
  release_lease, without_lease,
}

pub data LeaseRequest : Type 0 where
  acquiring : ℕ → ℕ → ℕ → ℤ → ℤ → ActionSafety → LeaseRequest
  beating : ℕ → ℤ → ℤ → LeaseRequest
  releasing : ℕ → LeaseRequest

unfoldable pub serve : (ℕ → Bool) → LeaseTable → LeaseRequest → LeaseTable
serve known t (acquiring id task owner now duration safety) =
    (acquire_lease known t id task owner now duration safety).0
serve known t (beating id now duration) = (heartbeat_lease t id now duration).0
serve known t (releasing id) = (release_lease t id).0

unfoldable pub serve_leases : (ℕ → Bool) → LeaseTable → List LeaseRequest → LeaseTable
serve_leases known t [] = t
serve_leases known t (q ∷ qs) = serve_leases known (serve known t q) qs

acquire-id :
    (id task owner : ℕ) (now duration : ℤ) (safety : ActionSafety) (m : Lease)
    → Lease.acquire id task owner now duration safety ≡ ok m
    → m.id ≡ id
unfolding Lease.acquire
acquire-id id task owner now duration safety m h = ground arith

heartbeat-id : (m : Lease) (now duration : ℤ) → (Lease.heartbeat m now duration).0.id ≡ m.id
unfolding Lease.heartbeat
heartbeat-id m now duration = ground arith

module _ (k : ℕ) (l : Lease) where
  -- the row of task `k` under review, or a row of another lease
  abbrev pub IsApart : ℕ × (Lease × LeaseStatus) → Type 0
  IsApart (j, (m, status)) = (m.id ≢ l.id) ⊎ ((j ≡ k) × (m ≡ l) × (status ≡ uncertain))

  -- the lease of task `k` is under review, and no other row has its id
  abbrev pub UnderReview : LeaseTable → Type 0
  UnderReview t = (Map.get k t.rows ≡ some (l, uncertain)) × All IsApart t.rows

  -- a new lease does not get the id, and the lease is not released
  abbrev pub IsOther : LeaseRequest → Type 0
  IsOther (acquiring id task owner now duration safety) = id ≢ l.id
  IsOther (beating id now duration) = Unit
  IsOther (releasing id) = id ≢ l.id

  All-insert :
      (j : ℕ) (v : Lease × LeaseStatus) (rows : Map (Lease × LeaseStatus))
      → IsApart (j, v)
      → All IsApart rows
      → All IsApart (Map.insert j v rows)
  unfolding Map.insert
  All-insert j v [] new h = (new, tt)
  All-insert j v ((i, w) ∷ rows) new h = ground (arith, All-insert j v rows new h.1)

  All-get :
      (j : ℕ) (v : Lease × LeaseStatus) (rows : Map (Lease × LeaseStatus))
      → All IsApart rows
      → Map.get j rows ≡ some v
      → IsApart (j, v)
  unfolding Map.get
  All-get j v [] h e = ground arith
  All-get j v ((i, w) ∷ rows) h e = elim (Bool-cases (i == j)) [
    | inl same ↦ let here = h.0 in ground (arith, here)
    | inr other ↦ All-get j v rows h.1 (ground arith)
  ]

  with_row-UnderReview :
      (t : LeaseTable) (j : ℕ) (m : Lease) (status : LeaseStatus)
      → IsApart (j, (m, status))
      → j ≢ k
      → UnderReview t
      → UnderReview (record t { rows = Map.insert j (m, status) t.rows })
  with_row-UnderReview t j m status apart other h = (
    ground (arith, Map.get-insert j k (m, status) t.rows, h.0),
    All-insert j (m, status) t.rows apart h.1,
  )

  find_active-other :
      (id : ℕ) (m : Lease) (rows : Map (Lease × LeaseStatus))
      → All IsApart rows
      → find_active id rows ≡ some m
      → (m.id ≡ id) × (id ≢ l.id)
  unfolding find_active
  find_active-other id m [] h e = ground arith
  find_active-other id m ((j, (n, active)) ∷ rows) h e =
      ground (arith, find_active-other id m rows h.1)
  find_active-other id m ((j, (n, uncertain)) ∷ rows) h e =
      ground (arith, find_active-other id m rows h.1)

  refresh-get :
      (id : ℕ) (next : Lease) (rows : Map (Lease × LeaseStatus))
      → id ≢ l.id
      → Map.get k rows ≡ some (l, uncertain)
      → Map.get k (refresh id next rows) ≡ some (l, uncertain)
  unfolding refresh Map.get
  refresh-get id next [] other h = h
  refresh-get id next ((j, (m, status)) ∷ rows) other h =
      ground (arith, h, refresh-get id next rows other)

  refresh-IsApart :
      (id : ℕ) (next : Lease) (rows : Map (Lease × LeaseStatus))
      → next.id ≢ l.id
      → All IsApart rows
      → All IsApart (refresh id next rows)
  unfolding refresh
  refresh-IsApart id next [] other h = h
  refresh-IsApart id next ((j, (m, status)) ∷ rows) other h =
      ground (arith, h.0, refresh-IsApart id next rows other h.1)

  renew-UnderReview :
      (t : LeaseTable) (id : ℕ) (r : Lease × Result (Unit {0}) LeaseError)
      → id ≢ l.id
      → r.0.id ≡ id
      → UnderReview t
      → UnderReview (renew t id r).0
  renew-UnderReview t id (next, err e) other same h = h
  renew-UnderReview t id (next, ok _) other same h = (
    refresh-get id next t.rows other h.0,
    refresh-IsApart id next t.rows (ground (arith, same)) h.1,
  )

  heartbeat_at-UnderReview :
      (t : LeaseTable) (id : ℕ) (now duration : ℤ) (found : Option Lease)
      → find_active id t.rows ≡ found
      → UnderReview t
      → UnderReview (heartbeat_at t id now duration found).0
  heartbeat_at-UnderReview t id now duration none e h = h
  heartbeat_at-UnderReview t id now duration (some m) e h =
      let (same, other) = find_active-other id m t.rows h.1 e in
      renew-UnderReview t id (Lease.heartbeat m now duration) other
        (heartbeat-id m now duration ∙ same) h

  without_lease-get :
      (id : ℕ) (rows : Map (Lease × LeaseStatus))
      → id ≢ l.id
      → Map.get k rows ≡ some (l, uncertain)
      → Map.get k (without_lease id rows) ≡ some (l, uncertain)
  unfolding without_lease Map.get
  without_lease-get id [] other h = h
  without_lease-get id ((j, (m, status)) ∷ rows) other h =
      ground (arith, h, without_lease-get id rows other)

  without_lease-IsApart :
      (id : ℕ) (rows : Map (Lease × LeaseStatus))
      → All IsApart rows
      → All IsApart (without_lease id rows)
  unfolding without_lease
  without_lease-IsApart id [] h = h
  without_lease-IsApart id ((j, (m, status)) ∷ rows) h =
      ground (arith, h.0, without_lease-IsApart id rows h.1)

  insert_lease-UnderReview :
      (possible : Bool) (t : LeaseTable) (task : ℕ) (made : Result Lease LeaseError)
      → ((m : Lease) → made ≡ ok m → m.id ≢ l.id)
      → task ≢ k
      → UnderReview t
      → UnderReview (insert_lease possible t task made).0
  insert_lease-UnderReview possible t task (err e) fresh other h = h
  insert_lease-UnderReview true t task (ok m) fresh other h =
      with_row-UnderReview t task m active (inl (fresh m refl)) other h
  insert_lease-UnderReview false t task (ok m) fresh other h = h

  -- a task without a row, or with one of another lease
  acquire_at-UnderReview :
      (known : Bool) (t : LeaseTable) (task : ℕ) (now : ℤ) (made : Result Lease LeaseError)
      (row : Option (Lease × LeaseStatus))
      → ((m : Lease) → made ≡ ok m → m.id ≢ l.id)
      → task ≢ k
      → Map.get task t.rows ≡ row
      → UnderReview t
      → UnderReview (acquire_at known t task now made row).0
  acquire_at-UnderReview known t task now made none fresh other e h =
      insert_lease-UnderReview known t task made fresh other h
  acquire_at-UnderReview known t task now made (some (m, status)) fresh other e h =
      elim (Bool-cases (is_uncertain status || needs_review (reconcile m now))) [
        | inl review ↦
            let apart = All-get task (m, status) t.rows h.1 e in
            rw review
              (with_row-UnderReview t task m uncertain (ground (arith, apart, other)) other h)
        | inr fine ↦ elim (Bool-cases (is_active (reconcile m now))) [
          | inl busy ↦ rw (fine, busy) h
          | inr free ↦ rw (fine, free) (insert_lease-UnderReview true t task made fresh other h)
        ]
      ]

  -- the task under review itself
  acquire_own-UnderReview :
      (known : Bool) (t : LeaseTable) (task : ℕ) (now : ℤ) (made : Result Lease LeaseError)
      → task ≡ k
      → UnderReview t
      → UnderReview (acquire_at known t task now made (Map.get task t.rows)).0
  acquire_own-UnderReview known t task now made same h =
      let own : Map.get task t.rows ≡ some (l, uncertain) = rw same h.0 in
      rw (own, acquire_at)
        (
          ground (arith, Map.get-insert task k (l, uncertain) t.rows, same),
          All-insert task (l, uncertain) t.rows (inr (same, refl, refl)) h.1,
        )

  acquire_lease-UnderReview :
      (known : ℕ → Bool) (t : LeaseTable) (id task owner : ℕ) (now duration : ℤ)
      (safety : ActionSafety)
      → id ≢ l.id
      → UnderReview t
      → UnderReview (acquire_lease known t id task owner now duration safety).0
  unfolding acquire_lease
  acquire_lease-UnderReview known t id task owner now duration safety other h =
      let fresh : (m : Lease)
          → Lease.acquire id task owner now duration safety ≡ ok m
          → m.id ≢ l.id =
        λ m made. ground (arith, acquire-id id task owner now duration safety m made, other) in
      elim (Bool-cases (not t.read_write)) [
        | inl closed ↦ rw closed h
        | inr writable ↦ elim (Bool-cases (task == k)) [
          | inl own ↦
              rw writable
                (acquire_own-UnderReview (known task) t task now _ ((==_iff task k).0 own) h)
          | inr apart ↦ rw writable (
              acquire_at-UnderReview (known task) t task now _ (Map.get task t.rows) fresh
                (ground (arith, apart)) refl h)
        ]
      ]

  heartbeat_lease-UnderReview :
      (t : LeaseTable) (id : ℕ) (now duration : ℤ)
      → UnderReview t
      → UnderReview (heartbeat_lease t id now duration).0
  unfolding heartbeat_lease
  heartbeat_lease-UnderReview t id now duration h = elim (Bool-cases (not t.read_write)) [
    | inl closed ↦ rw closed h
    | inr writable ↦
        rw writable (heartbeat_at-UnderReview t id now duration (find_active id t.rows) refl h)
  ]

  release_lease-UnderReview :
      (t : LeaseTable) (id : ℕ) → id ≢ l.id → UnderReview t → UnderReview (release_lease t id).0
  unfolding release_lease
  release_lease-UnderReview t id other h = elim (Bool-cases (not t.read_write)) [
    | inl closed ↦ rw closed h
    | inr writable ↦
        rw writable (without_lease-get id t.rows other h.0, without_lease-IsApart id t.rows h.1)
  ]

  serve-UnderReview :
      (known : ℕ → Bool) (t : LeaseTable) (q : LeaseRequest)
      → IsOther q
      → UnderReview t
      → UnderReview (serve known t q)
  unfolding serve
  serve-UnderReview known t (acquiring id task owner now duration safety) other h =
      acquire_lease-UnderReview known t id task owner now duration safety other h
  serve-UnderReview known t (beating id now duration) other h =
      heartbeat_lease-UnderReview t id now duration h
  serve-UnderReview known t (releasing id) other h = release_lease-UnderReview t id other h

  -- A lease under review, whose id no other row has, stays as it is, under review, and the only one
  -- with its id, whatever leases are asked for, whatever heartbeats arrive, also for its id, and
  -- whatever leases are released, as long as no new lease gets its id and it is not released itself.
  pub serve_leases-UnderReview :
      (known : ℕ → Bool) (t : LeaseTable) (qs : List LeaseRequest)
      → All IsOther qs
      → UnderReview t
      → UnderReview (serve_leases known t qs)
  unfolding serve_leases
  serve_leases-UnderReview known t [] others h = h
  serve_leases-UnderReview known t (q ∷ qs) others h =
      serve_leases-UnderReview known (serve known t q) qs others.1
        (serve-UnderReview known t q others.0 h)
