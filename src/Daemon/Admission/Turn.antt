-- ===== src/Daemon/Admission/Turn.antt =====
-- Whose turn it is, crates/workflowd/src/admission.rs.
use opencode_cycle_plugin.Prelude.{
  ℕ, ◌≡◌, ◌<◌, refl, subst, Bool, true, false, not, Option, none, some, List, [], ◌∷◌, ◌++◌, arith,
  leb, length, Bool-cases, Option-cases, ◌⊎◌, inl, inr, saturating_add, u64_max,
}
use opencode_cycle_plugin.Prelude.Map
use opencode_cycle_plugin.Prelude.Map.{Map}
use opencode_cycle_plugin.Daemon.Policy.{
  AdmissionController, AdmissionDecision, ResourceSample, admit, begin_tick,
}
use opencode_cycle_plugin.Daemon.Policy.Admission.{HasRoom, evaluate-HasRoom}
use opencode_cycle_plugin.Daemon.Queues.{
  RuntimeAdmission, reap, enqueue, lease_millis, queue_of, front, is_key, dequeue_front,
}
use opencode_cycle_plugin.Daemon.Admission.{
  AdmissionOperation, AdmissionResult, release, execute, execute_reaped, acquire_waiting, decide,
  is_turn, tick, demand, hold,
}

-- nothing stands before it
abbrev pub Leads : ℕ → List ℕ → Type 0
Leads k [] = Unit
Leads k (j ∷ js) = j ≡ k

abbrev pub LeadsQueue : ℕ → Option (List ℕ) → Type 0
LeadsQueue k none = Unit
LeadsQueue k (some queue) = Leads k queue

front-Leads : (k : ℕ) (ks : List ℕ) → is_key (front ks) k ≡ true → Leads k ks
front-Leads k [] h = tt
front-Leads k (j ∷ js) h = ground (arith, h)

Leads-append : (k j : ℕ) (ks : List ℕ) → Leads k (ks ++ j ∷ []) → Leads k ks
Leads-append k j [] h = tt
Leads-append k j (i ∷ is) h = h

LeadsQueue-queue_of :
    (k p : ℕ) (projects : Map (List ℕ))
    → Leads k (queue_of p projects)
    → LeadsQueue k (Map.get p projects)
LeadsQueue-queue_of k p projects h = elim (Option-cases (Map.get p projects)) [
  | inl e ↦ rw e tt
  | inr (queue, e) ↦
      let same : queue_of p projects ≡ queue = ground (arith, e) in rw e (subst (Leads k) same h)
]

module _ {Cpu : Type 0} where
  -- it has a lease until then, and the answer says so
  abbrev pub IsLeased : ℕ → ℕ → RuntimeAdmission Cpu × AdmissionResult → Type 0
  IsLeased w expires (a, r) =
      (Map.get w a.active ≡ some expires) × (r.lease_expires_unix_millis ≡ some expires)

  hold-IsLeased :
      (a : RuntimeAdmission Cpu) (w now : ℕ)
      → IsLeased w (saturating_add u64_max now lease_millis) (hold a w now)
  hold-IsLeased a w now =
      (ground (arith, Map.get-insert w w (saturating_add u64_max now lease_millis) a.active), refl)

  enqueue_keeps :
      (a : RuntimeAdmission Cpu) (p w now : ℕ)
      → let b = enqueue a p w now in
        (b.active ≡ a.active)
        × (b.maximum_active ≡ a.maximum_active)
        × (b.controller ≡ a.controller)
  unfolding enqueue
  enqueue_keeps a p w now = (ground arith, ground arith, ground arith)

  tick_keeps :
      (a : RuntimeAdmission Cpu) (now : ℕ) → (tick a now).controller.policy ≡ a.controller.policy
  unfolding begin_tick
  tick_keeps a now = ground arith

  -- who leads the queues behind `enqueue` has led before
  enqueue-Leads :
      (a : RuntimeAdmission Cpu) (p w now : ℕ)
      → Leads p (enqueue a p w now).rotation
      → Leads p a.rotation
  unfolding enqueue
  enqueue-Leads a p w now h = elim (Bool-cases (Map.contains_key w a.waiting)) [
    | inl old ↦ rw old at h
    | inr fresh ↦ elim (Bool-cases (Map.contains_key p a.projects)) [
      | inl known ↦ rw (fresh, known) at h
      | inr added ↦ Leads-append p p a.rotation (rw (fresh, added) at h)
    ]
  ]

  enqueue-queue_of :
      (a : RuntimeAdmission Cpu) (p w now : ℕ)
      → Leads w (queue_of p (enqueue a p w now).projects)
      → Leads w (queue_of p a.projects)
  unfolding enqueue
  enqueue-queue_of a p w now h = elim (Bool-cases (Map.contains_key w a.waiting)) [
    | inl old ↦ rw old at h
    | inr fresh ↦
        let stored = Map.get-insert p p (queue_of p a.projects ++ w ∷ []) a.projects in
        let same : queue_of p (enqueue a p w now).projects ≡ queue_of p a.projects ++ w ∷ [] =
          ground (arith, stored) in
        Leads-append w w (queue_of p a.projects) (subst (Leads w) same h)
  ]

module _ {Cpu : Type 0} (exceeds : Cpu → Cpu → Bool) where
  -- A workflow without a lease may have one: the leases are below the limit, no project stands
  -- before its own, no workflow before it in the queue of its project, and the sample has room for it.
  abbrev pub HasTurn : RuntimeAdmission Cpu → ℕ → ℕ → ResourceSample Cpu → Type 0
  HasTurn a p w sample =
      length a.active < a.maximum_active
      × Leads p a.rotation
      × LeadsQueue w (Map.get p a.projects)
      × HasRoom exceeds a.controller.policy sample demand

module _ {Cpu : Type 0} (debug : Bool) (exceeds : Cpu → Cpu → Bool) where
  decide_admitted :
      (a : RuntimeAdmission Cpu) (p w now : ℕ) (d : AdmissionController Cpu × AdmissionDecision)
      → (decide debug exceeds a p w now d).1.admitted ≡ true
      → (d.1 ≡ admit)
        × IsLeased w (saturating_add u64_max now lease_millis) (decide debug exceeds a p w now d)
  decide_admitted a p w now (c, admit) h =
      (refl, hold-IsLeased (dequeue_front debug (record a { controller = c }) p w) w now)
  decide_admitted a p w now (c, _) h = absurd (cc)

  acquire_waiting-HasTurn :
      (a : RuntimeAdmission Cpu) (p w : ℕ) (sample : ResourceSample Cpu) (now : ℕ)
      → (acquire_waiting debug exceeds (enqueue a p w now) p w sample now).1.admitted ≡ true
      → HasTurn exceeds a p w sample
        × IsLeased w
            (saturating_add u64_max now lease_millis)
            (acquire_waiting debug exceeds (enqueue a p w now) p w sample now)
  acquire_waiting-HasTurn a p w sample now =
      let b = enqueue a p w now in
      let (same_active, same_limit, same_controller) = enqueue_keeps a p w now in
      elim (Bool-cases (leb b.maximum_active (length b.active))) [
        | inl full ↦ rw (acquire_waiting, full) (λ h. absurd (cc))
        | inr below ↦ elim (Bool-cases (not (is_turn b p w))) [
          | inl early ↦ rw (acquire_waiting, below, early) (λ h. absurd (cc))
          | inr turn ↦
              rw (acquire_waiting, below, turn)
                (λ h.
                  let (admitted, leased) = decide_admitted (tick b now) p w now _ h in
                  let (room, _) =
                    evaluate-HasRoom exceeds (tick b now).controller sample demand false admitted in
                  let policy : (tick b now).controller.policy ≡ a.controller.policy =
                    ground (arith, tick_keeps b now, same_controller) in
                  (
                    (
                      ground (arith, below, same_active, same_limit),
                      enqueue-Leads a p w now (front-Leads p b.rotation (ground (arith, turn))),
                      LeadsQueue-queue_of w p a.projects (
                          enqueue-queue_of a p w now
                            (front-Leads w (queue_of p b.projects) (ground (arith, turn)))),
                      subst (λ q. HasRoom exceeds q sample demand) policy room,
                    ),
                    leased,
                  ))
        ]
      ]

  execute_reaped-HasTurn :
      (operation : AdmissionOperation) (a : RuntimeAdmission Cpu) (p w : ℕ)
      (sample : ResourceSample Cpu) (now : ℕ)
      → (execute_reaped debug exceeds operation a p w sample now).1.admitted ≡ true
      → ((Map.contains_key w a.active ≡ true) ⊎ HasTurn exceeds a p w sample)
        × IsLeased w
            (saturating_add u64_max now lease_millis)
            (execute_reaped debug exceeds operation a p w sample now)
  unfolding execute_reaped
  execute_reaped-HasTurn release a p w sample now = λ h. absurd (cc)
  execute_reaped-HasTurn _ a p w sample now = elim (Bool-cases (Map.contains_key w a.active)) [
    | inl held ↦ rw held (λ h. (inl refl, hold-IsLeased a w now))
    | inr fresh ↦
        rw fresh (λ h.
          let (turn, leased) = acquire_waiting-HasTurn a p w sample now h in (inr turn, leased))
  ]

  -- A workflow that `execute` admits, whatever the operation, has a lease of 15 seconds from now. Once
  -- the expired leases and queue entries are removed, it has a lease already, or else the leases are
  -- fewer than the limit, no project stands before its own in the rotation, no workflow before it in
  -- the queue of its project, and the sample shows the memory, the disk and the CPU load that the
  -- policy asks for.
  pub execute-HasTurn :
      (a : RuntimeAdmission Cpu) (operation : AdmissionOperation) (p w : ℕ)
      (sample : ResourceSample Cpu) (now : ℕ)
      → (execute debug exceeds a operation p w sample now).1.admitted ≡ true
      → ((Map.contains_key w (reap a now).active ≡ true) ⊎ HasTurn exceeds (reap a now) p w sample)
        × IsLeased w
            (saturating_add u64_max now 15000)
            (execute debug exceeds a operation p w sample now)
  unfolding execute
  execute-HasTurn a operation p w sample now h =
      execute_reaped-HasTurn operation (reap a now) p w sample now h
