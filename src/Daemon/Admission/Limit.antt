-- ===== src/Daemon/Admission/Limit.antt =====
-- The number of leases that the admission grants, crates/workflowd/src/admission.rs.
use opencode_cycle_plugin.Prelude.{
  ℕ, ◌-◌, suc, ◌≤◌, ◌<◌, ◌≡◌, refl, Bool, true, not, List, [], ◌∷◌, arith, ltb, leb, ◌==◌, length,
  Bool-cases, Option-cases, All, inl, inr, ap, saturating_add, u64_max, ltb→lt,
}
use opencode_cycle_plugin.Prelude.Map
use opencode_cycle_plugin.Prelude.Set.{All-lt_trans}
use opencode_cycle_plugin.Prelude.Map.{Map}
use opencode_cycle_plugin.Daemon.Policy.{
  AdmissionController, AdmissionDecision, admit, ResourceSample,
}
use opencode_cycle_plugin.Daemon.Queues.{
  RuntimeAdmission, lease_millis, retain, remove, remove_all, reap, repair_queue_invariants,
  enqueue, dequeue_front, leave_queue, remove_waiting,
}
use opencode_cycle_plugin.Daemon.Admission.{
  AdmissionOperation, release, execute, execute_reaped, hold, decide, acquire_waiting, tick, new,
  is_turn,
}

module _ {V : Type 0} where
  length-retain : (p : ℕ → V → Bool) (m : Map V) → length (retain p m) ≤ length m
  unfolding retain
  length-retain p [] = ground arith
  length-retain p ((k, v) ∷ m) = ground (arith, length-retain p m)

  All-keys-retain :
      (P : ℕ → Type 0) (p : ℕ → V → Bool) (m : Map V)
      → All P (Map.keys m)
      → All P (Map.keys (retain p m))
  unfolding retain
  All-keys-retain P p [] h = h
  All-keys-retain P p ((k, v) ∷ m) h = elim (Bool-cases (p k v)) [
    | inl kept ↦ rw kept (h.0, All-keys-retain P p m h.1)
    | inr dropped ↦ rw dropped (All-keys-retain P p m h.1)
  ]

  retain-IsSorted : (p : ℕ → V → Bool) (m : Map V) → Map.IsSorted m → Map.IsSorted (retain p m)
  unfolding retain
  retain-IsSorted p [] h = h
  retain-IsSorted p ((k, v) ∷ m) h = elim (Bool-cases (p k v)) [
    | inl kept ↦ rw kept (All-keys-retain (λ j. k < j) p m h.0, retain-IsSorted p m h.1)
    | inr dropped ↦ rw dropped (retain-IsSorted p m h.1)
  ]

  remove-retain : (k : ℕ) (m : Map V) → Map.remove k m ≡ retain (λ j v. not (j == k)) m
  unfolding retain Map.remove
  remove-retain k [] = refl
  remove-retain k ((j, v) ∷ m) = elim (Bool-cases (j == k)) [
    | inl same ↦ rw same (remove-retain k m)
    | inr other ↦ rw other (ap (λ rest. (j, v) ∷ rest) (remove-retain k m))
  ]

  length-insert : (k : ℕ) (v : V) (m : Map V) → length (Map.insert k v m) ≤ suc (length m)
  unfolding Map.insert
  length-insert k v [] = ground arith
  length-insert k v ((j, w) ∷ m) = ground (arith, length-insert k v m)

  length-insert_present :
      (k : ℕ) (v : V) (m : Map V)
      → Map.IsSorted m
      → Map.contains_key k m ≡ true
      → length (Map.insert k v m) ≡ length m
  unfolding Map.insert Map.get
  length-insert_present k v [] h e = cc
  length-insert_present k v ((j, w) ∷ m) h e = elim (Bool-cases (ltb k j)) [
    | inl below ↦ ground (
      arith,
      Map.get-none_of_lt k k m refl (All-lt_trans k j (Map.keys m) (ltb→lt k j below) h.0),
    )
    | inr above ↦ ground (arith, length-insert_present k v m h.1)
  ]

-- at most `n` leases, one for each workflow
module _ {Cpu : Type 0} (n : ℕ) where
  abbrev pub IsBounded : RuntimeAdmission Cpu → Type 0
  IsBounded a = Map.IsSorted a.active × length a.active ≤ n × (a.maximum_active ≡ n)

  -- the leases and the limit of the first are those of the second
  abbrev SameLeases : RuntimeAdmission Cpu → RuntimeAdmission Cpu → Type 0
  SameLeases a b = (a.active ≡ b.active) × (a.maximum_active ≡ b.maximum_active)

  SameLeases-IsBounded : (a b : RuntimeAdmission Cpu) → SameLeases a b → IsBounded b → IsBounded a
  SameLeases-IsBounded a b e h = rw (e.0, e.1) h

  retain-IsBounded :
      (p : ℕ → ℕ → Bool) (a : RuntimeAdmission Cpu)
      → IsBounded a
      → IsBounded (record a { active = retain p a.active })
  retain-IsBounded p a h =
      (retain-IsSorted p a.active h.0, omega (arith, length-retain p a.active, h.1), h.2)

  leave_queue_leases :
      (w p : ℕ) (queue : List ℕ) (a : RuntimeAdmission Cpu) → SameLeases (leave_queue w p queue a) a
  leave_queue_leases w p [] a = (refl, refl)
  leave_queue_leases w p (v ∷ vs) a = (refl, refl)

  remove_waiting_leases : (w p : ℕ) (a : RuntimeAdmission Cpu) → SameLeases (remove_waiting w p a) a
  remove_waiting_leases w p a = elim (Option-cases (Map.get p a.projects)) [
    | inl gone ↦ rw (remove_waiting, gone) (refl, refl)
    | inr (queue, found) ↦ rw (remove_waiting, found) (leave_queue_leases w p _ a)
  ]

  remove_leases :
      (a : RuntimeAdmission Cpu) (w : ℕ)
      → SameLeases (remove a w) (record a { active = Map.remove w a.active })
  unfolding remove
  remove_leases a w = elim (Option-cases (Map.get w a.workflow_projects)) [
    | inl e ↦ rw (e, remove) (refl, refl)
    | inr (p, e) ↦ rw (e, remove) (remove_waiting_leases w p _)
  ]

  remove-IsBounded : (a : RuntimeAdmission Cpu) (w : ℕ) → IsBounded a → IsBounded (remove a w)
  remove-IsBounded a w h =
      SameLeases-IsBounded (remove a w) (record a { active = Map.remove w a.active })
        (remove_leases a w)
        (rw (remove-retain w a.active) (retain-IsBounded (λ j v. not (j == w)) a h))

  remove_all-IsBounded :
      (ws : List ℕ) (a : RuntimeAdmission Cpu) → IsBounded a → IsBounded (remove_all a ws)
  unfolding remove_all
  remove_all-IsBounded [] a h = h
  remove_all-IsBounded (w ∷ ws) a h = remove_all-IsBounded ws (remove a w) (remove-IsBounded a w h)

  reap-IsBounded : (a : RuntimeAdmission Cpu) (now : ℕ) → IsBounded a → IsBounded (reap a now)
  unfolding reap repair_queue_invariants
  reap-IsBounded a now h =
      remove_all-IsBounded _ _ (retain-IsBounded (λ w expires_at. ltb now expires_at) a h)

  hold-IsBounded_present :
      (a : RuntimeAdmission Cpu) (w now : ℕ)
      → IsBounded a
      → Map.contains_key w a.active ≡ true
      → IsBounded ((hold a w now).0)
  hold-IsBounded_present a w now h held = (
    Map.insert-IsSorted w _ a.active h.0,
    omega (
      arith,
      length-insert_present w (saturating_add u64_max now lease_millis) a.active h.0 held,
      h.1,
    ),
    h.2,
  )

  hold-IsBounded :
      (a : RuntimeAdmission Cpu) (w now : ℕ)
      → IsBounded a
      → length a.active < n
      → IsBounded ((hold a w now).0)
  hold-IsBounded a w now h below = (
    Map.insert-IsSorted w _ a.active h.0,
    omega (arith, length-insert w (saturating_add u64_max now lease_millis) a.active, below),
    h.2,
  )

  decide-IsBounded :
      (debug : Bool) (exceeds : Cpu → Cpu → Bool) (a : RuntimeAdmission Cpu) (p w now : ℕ)
      (d : AdmissionController Cpu × AdmissionDecision)
      → IsBounded a
      → length a.active < n
      → IsBounded ((decide debug exceeds a p w now d).0)
  unfolding dequeue_front
  decide-IsBounded debug exceeds a p w now (c, admit) h below =
      hold-IsBounded (dequeue_front debug (record a { controller = c }) p w) w now h below
  decide-IsBounded debug exceeds a p w now (c, _) h below = h

  tick_leases : (a : RuntimeAdmission Cpu) (now : ℕ) → SameLeases (tick a now) a
  tick_leases a now = elim (Bool-cases (leb 1000 (now - a.last_tick))) [
    | inl due ↦ rw (tick, due) (refl, refl)
    | inr early ↦ rw (tick, early) (refl, refl)
  ]

  acquire_waiting-IsBounded :
      (debug : Bool) (exceeds : Cpu → Cpu → Bool) (a : RuntimeAdmission Cpu) (p w : ℕ)
      (sample : ResourceSample Cpu) (now : ℕ)
      → IsBounded a
      → IsBounded ((acquire_waiting debug exceeds a p w sample now).0)
  acquire_waiting-IsBounded debug exceeds a p w sample now h =
      elim (Bool-cases (leb a.maximum_active (length a.active))) [
        | inl full ↦ rw (acquire_waiting, full) h
        | inr below ↦ elim (Bool-cases (not (is_turn a p w))) [
          | inl early ↦ rw (acquire_waiting, below, early) h
          | inr turn ↦
              rw (acquire_waiting, below, turn)
                (decide-IsBounded debug exceeds (tick a now) p w now _
                  (SameLeases-IsBounded (tick a now) a (tick_leases a now) h)
                  (rw (tick_leases a now).0 (ground (arith, h.2))))
        ]
      ]

  enqueue_leases : (a : RuntimeAdmission Cpu) (p w now : ℕ) → SameLeases (enqueue a p w now) a
  unfolding enqueue
  enqueue_leases a p w now = elim (Bool-cases (Map.contains_key w a.waiting)) [
    | inl waits ↦ rw (enqueue, waits) (refl, refl)
    | inr fresh ↦ rw (enqueue, fresh) (refl, refl)
  ]

  execute_reaped-IsBounded :
      (debug : Bool) (exceeds : Cpu → Cpu → Bool) (operation : AdmissionOperation)
      (a : RuntimeAdmission Cpu) (p w : ℕ) (sample : ResourceSample Cpu) (now : ℕ)
      → IsBounded a
      → IsBounded ((execute_reaped debug exceeds operation a p w sample now).0)
  unfolding execute_reaped
  execute_reaped-IsBounded debug exceeds release a p w sample now h = remove-IsBounded a w h
  execute_reaped-IsBounded debug exceeds _ a p w sample now h =
      elim (Bool-cases (Map.contains_key w a.active)) [
        | inl held ↦ rw (execute_reaped, held) (hold-IsBounded_present a w now h held)
        | inr fresh ↦
            rw (execute_reaped, fresh)
              (acquire_waiting-IsBounded debug exceeds (enqueue a p w now) p w sample now
                (SameLeases-IsBounded (enqueue a p w now) a (enqueue_leases a p w now) h))
      ]

  pub execute-IsBounded :
      (debug : Bool) (exceeds : Cpu → Cpu → Bool) (a : RuntimeAdmission Cpu)
      (operation : AdmissionOperation) (p w : ℕ) (sample : ResourceSample Cpu) (now : ℕ)
      → IsBounded a
      → IsBounded ((execute debug exceeds a operation p w sample now).0)
  unfolding execute
  execute-IsBounded debug exceeds a operation p w sample now h =
      execute_reaped-IsBounded debug exceeds operation (reap a now) p w sample now
        (reap-IsBounded a now h)

-- the states that a daemon reaches from `new` with the limit `n`
pub data Reached {Cpu : Type 0} (debug : Bool) (exceeds : Cpu → Cpu → Bool) (cpu : Cpu) (n : ℕ)
    : RuntimeAdmission Cpu → Type 0 where
  started : Reached debug exceeds cpu n (new cpu n)
  executed :
      {a : RuntimeAdmission Cpu} (operation : AdmissionOperation) (p w : ℕ)
      (sample : ResourceSample Cpu) (now : ℕ)
      → Reached debug exceeds cpu n a
      → Reached debug exceeds cpu n ((execute debug exceeds a operation p w sample now).0)
  removed :
      {a : RuntimeAdmission Cpu} (w : ℕ)
      → Reached debug exceeds cpu n a
      → Reached debug exceeds cpu n (remove a w)

module _ {Cpu : Type 0} (debug : Bool) (exceeds : Cpu → Cpu → Bool) (cpu : Cpu) (n : ℕ) where
  -- In every state that acquisitions, releases and the passing of time reach from `new`, with a
  -- limit of at least one, no workflow holds two leases, there are no more leases than the limit,
  -- and the limit is the one that `new` was given.
  pub Reached-IsBounded :
      {a : RuntimeAdmission Cpu} → 1 ≤ n → Reached debug exceeds cpu n a → IsBounded n a
  unfolding new
  Reached-IsBounded h started = ground (arith, h)
  Reached-IsBounded h (executed {a = a} operation p w sample now r) =
      execute-IsBounded n debug exceeds a operation p w sample now (Reached-IsBounded h r)
  Reached-IsBounded h (removed {a = a} w r) = remove-IsBounded n a w (Reached-IsBounded h r)
