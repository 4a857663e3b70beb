-- ===== src/Daemon/Policy/Admission.antt =====
-- When work is admitted, and how much after a tick of pressure
-- (crates/workflowd/src/resources/policy.rs).
use opencode_cycle_plugin.Prelude.{
  ℕ, suc, ◌+◌, ◌≤◌, ◌<◌, Bool, true, false, ◌&&◌, some, List, [], ◌∷◌, if◌then◌else◌,
  saturating_add, u64_max, ◌≡◌, inl, inr, arith, Bool-cases, Option-cases, ap,
}
use opencode_cycle_plugin.Daemon.Policy.{
  AdmissionController, AdmissionDecision, admit, ResourceDemand, ResourceSample, ResourcePolicy,
  evaluate, evaluate_sampled, begin_tick, u16_max, is_indexing,
}

abbrev pub Request : Type 0 → Type 0
Request Cpu = ResourceSample Cpu × ResourceDemand × Bool

abbrev is_admit : AdmissionDecision → Bool
is_admit admit = true
is_admit _ = false

module _ {Cpu : Type 0} (exceeds : Cpu → Cpu → Bool) where
  -- how many of the requests of one tick are admitted
  unfoldable pub admissions : AdmissionController Cpu → List (Request Cpu) → ℕ
  admissions c [] = 0
  admissions c ((sample, demand, waiting) ∷ requests) =
      let (c', decision) = evaluate exceeds c sample demand waiting in
      let rest = admissions c' requests in if is_admit decision then suc rest else rest

  -- room for the demand above the reserves, and no more load than the policy allows
  abbrev pub HasRoom : ResourcePolicy Cpu → ResourceSample Cpu → ResourceDemand → Type 0
  HasRoom p sample demand =
      (memory : ℕ) × (disk : ℕ) × (cpu : Cpu) × (sample.available_memory_bytes ≡ some memory)
      × (sample.available_disk_bytes ≡ some disk)
      × (sample.cpu_usage_percent ≡ some cpu)
      × (saturating_add u64_max p.memory_reserve_bytes demand.memory_bytes ≤ memory)
      × (saturating_add u64_max p.disk_reserve_bytes demand.disk_bytes ≤ disk)
      × (exceeds cpu p.max_cpu_percent ≡ false)

  evaluate_sampled_admit :
      (c : AdmissionController Cpu) (memory disk : ℕ) (cpu : Cpu) (demand : ResourceDemand)
      → (evaluate_sampled exceeds c memory disk cpu demand).1 ≡ admit
      → (saturating_add u64_max c.policy.memory_reserve_bytes demand.memory_bytes ≤ memory)
        × (saturating_add u64_max c.policy.disk_reserve_bytes demand.disk_bytes ≤ disk)
        × (exceeds cpu c.policy.max_cpu_percent ≡ false)
  unfolding evaluate_sampled
  evaluate_sampled_admit c memory disk cpu demand h = ground arith

  -- The counter of a recovery tick: `evaluate` keeps the policy and the mark, and counts what it
  -- admits, which is below the limit.
  evaluate_counts :
      (c : AdmissionController Cpu) (sample : ResourceSample Cpu) (demand : ResourceDemand)
      (waiting : Bool)
      → c.recovery_tick ≡ true
      → c.policy.recovery_admissions_per_tick ≤ u16_max
      → let (c', decision) = evaluate exceeds c sample demand waiting in
        (c'.recovery_tick ≡ true)
        × (c'.policy ≡ c.policy)
        × (c'.admitted_this_tick
            ≡ (if is_admit decision then suc c.admitted_this_tick else c.admitted_this_tick))
        × (is_admit decision ≡ true → c.admitted_this_tick < c.policy.recovery_admissions_per_tick)
  unfolding evaluate evaluate_sampled
  evaluate_counts c sample demand waiting marked bound =
      (ground arith, ground arith, ground arith, ground arith)

  admissions_limit :
      (c : AdmissionController Cpu) (requests : List (Request Cpu))
      → c.recovery_tick ≡ true
      → c.policy.recovery_admissions_per_tick ≤ u16_max
      → c.admitted_this_tick ≤ c.policy.recovery_admissions_per_tick
      → c.admitted_this_tick + admissions c requests ≤ c.policy.recovery_admissions_per_tick
  unfolding admissions
  admissions_limit c [] marked bound below = omega arith
  admissions_limit c ((sample, demand, waiting) ∷ requests) marked bound below =
      let c' = (evaluate exceeds c sample demand waiting).0 in
      let (still, same, counted, room) = evaluate_counts c sample demand waiting marked bound in
      let limits : c'.policy.recovery_admissions_per_tick ≡ c.policy.recovery_admissions_per_tick =
        ap (λ p. p.recovery_admissions_per_tick) same in
      elim (Bool-cases (is_admit (evaluate exceeds c sample demand waiting).1)) [
        | inl taken ↦
            let room_left = room taken in
            let rest = admissions_limit c' requests still (ground arith) (ground arith) in
            ground arith
        | inr deferred ↦
            let rest = admissions_limit c' requests still (ground arith) (ground arith) in
            ground arith
      ]

  -- After a tick under pressure, the requests of the next tick, however many, are admitted at most
  -- as often as the policy's limit for recovery, if the limit is a 16-bit word.
  pub admissions-begin_tick :
      (c : AdmissionController Cpu) (requests : List (Request Cpu))
      → c.pressured_last_tick ≡ true
      → c.policy.recovery_admissions_per_tick ≤ u16_max
      → admissions (begin_tick c) requests ≤ c.policy.recovery_admissions_per_tick
  unfolding begin_tick
  admissions-begin_tick c requests pressured bound =
      let limited = admissions_limit (begin_tick c) requests pressured bound (omega arith) in
      omega arith

  -- What is admitted has been sampled, and fits: memory and disk above the policy's reserves and the
  -- demand, added without wrap-around, and a CPU load within the policy's maximum; and indexing is
  -- not admitted while verification waits.
  pub evaluate-HasRoom :
      (c : AdmissionController Cpu) (sample : ResourceSample Cpu) (demand : ResourceDemand)
      (waiting : Bool)
      → (evaluate exceeds c sample demand waiting).1 ≡ admit
      → HasRoom c.policy sample demand × ((is_indexing demand.kind && waiting) ≡ false)
  unfolding evaluate
  evaluate-HasRoom c sample demand waiting admitted =
      elim (Option-cases sample.available_memory_bytes) [
        | inl e ↦ absurd (ground arith)
        | inr (memory, m) ↦ elim (Option-cases sample.available_disk_bytes) [
          | inl e ↦ absurd (ground arith)
          | inr (disk, d) ↦ elim (Option-cases sample.cpu_usage_percent) [
            | inl e ↦ absurd (ground arith)
            | inr (cpu, p) ↦
                let (a, b, l) = evaluate_sampled_admit c memory disk cpu demand (ground arith) in
                ((memory, disk, cpu, m, d, p, a, b, l), ground arith)
          ]
        ]
      ]
