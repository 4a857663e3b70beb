-- ===== src/Core/Lease/Expiry.antt =====
-- When a lease expires, and what may happen to its work then (crates/workflow-core/src/lease.rs).
use opencode_cycle_plugin.Prelude.{
  ℕ, ◌≡◌, ◌≢◌, refl, ◌↔◌, ◌⊎◌, true, false, List, [], ◌∷◌, ok, err, arith, All, is_ok,
}
use opencode_cycle_plugin.Prelude.Int.{ℤ, pos, ◌+ℤ◌, ◌≤ℤ◌, ◌<ℤ◌, is_i64}
use opencode_cycle_plugin.Core.Lease.{
  Lease, ActionSafety, idempotent, non_idempotent, active, replayable, manual_review_required,
  expired, invalid_duration, time_overflow, acquire, heartbeat, heartbeats, reconcile,
}

-- A lease is granted exactly for a positive duration whose end fits in an i64. It is then active
-- from the time of the grant up to and including that end, and at no later time.
pub acquire_active :
    (id task_id owner : ℕ) (now duration : ℤ) (safety : ActionSafety)
    → (is_ok (acquire id task_id owner now duration safety) ≡ true
        ↔ ((pos 0 <ℤ duration) × (is_i64 (now +ℤ duration) ≡ true)))
      × ((l : Lease)
          → acquire id task_id owner now duration safety ≡ ok l
          → (t : ℤ) → (reconcile l t ≡ active) ↔ (t ≤ℤ now +ℤ duration))
unfolding acquire reconcile
acquire_active id task_id owner now duration safety = (ground arith, λ l e t. ground arith)

-- Every outcome of a heartbeat: it is refused, and the lease unchanged, when the lease has expired,
-- when the duration is not positive, and when the new end overflows; else the lease ends `duration`
-- after `now` and is the same otherwise.
pub heartbeat_outcome :
    (l : Lease) (now duration : ℤ)
    → ((l.expires_at_unix_millis <ℤ now) × (heartbeat l now duration ≡ (l, err expired)))
      ⊎ ((now ≤ℤ l.expires_at_unix_millis)
          × (duration ≤ℤ pos 0)
          × (heartbeat l now duration ≡ (l, err invalid_duration)))
      ⊎ ((now ≤ℤ l.expires_at_unix_millis)
          × (pos 0 <ℤ duration)
          × (is_i64 (now +ℤ duration) ≡ false)
          × (heartbeat l now duration ≡ (l, err time_overflow)))
      ⊎ ((now ≤ℤ l.expires_at_unix_millis)
          × (pos 0 <ℤ duration)
          × (is_i64 (now +ℤ duration) ≡ true)
          × (heartbeat l now duration
              ≡ (record l { expires_at_unix_millis = now +ℤ duration }, ok tt)))
unfolding heartbeat
heartbeat_outcome l now duration = ground arith

-- A lease that has expired stays expired: heartbeats at that time or later leave it as it is.
pub heartbeats_expired :
    (l : Lease) (now : ℤ) (beats : List (ℤ × ℤ))
    → l.expires_at_unix_millis <ℤ now
    → All (λ beat. now ≤ℤ beat.0) beats
    → heartbeats l beats ≡ l
unfolding heartbeats
heartbeats_expired l now [] h later = refl
heartbeats_expired l now ((at, duration) ∷ beats) h later =
    ground (arith, heartbeat_outcome l at duration, heartbeats_expired l now beats)

-- Whatever heartbeats it is sent, the work of a non-idempotent lease is never replayable, and that
-- of an idempotent lease never waits for a manual review.
pub reconcile_safe :
    (l : Lease) (beats : List (ℤ × ℤ)) (t : ℤ)
    → (l.safety ≡ non_idempotent → reconcile (heartbeats l beats) t ≢ replayable)
      × (l.safety ≡ idempotent → reconcile (heartbeats l beats) t ≢ manual_review_required)
unfolding heartbeats
reconcile_safe l [] t = unfold reconcile in ground arith
reconcile_safe l ((at, duration) ∷ beats) t =
    ground
      (arith, heartbeat_outcome l at duration, reconcile_safe (heartbeat l at duration).0 beats t)
