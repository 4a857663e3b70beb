-- ===== src/Core/Lease/Examples.antt =====
-- The theorems on leases at concrete leases.
use opencode_cycle_plugin.Prelude.{◌≡◌, List, [], ◌∷◌, arith}
use opencode_cycle_plugin.Prelude.Int.{ℤ, pos}
use opencode_cycle_plugin.Core.Lease.{Lease, non_idempotent, heartbeats}
use opencode_cycle_plugin.Core.Lease.Expiry.{heartbeats_expired}

abbrev granted : Lease
granted = record {
  id = 1;
  task_id = 2;
  owner = 3;
  acquired_at_unix_millis = pos 100;
  expires_at_unix_millis = pos 130;
  safety = non_idempotent;
}

abbrev late : List (ℤ × ℤ)
late = (pos 131, pos 30) ∷ (pos 150, pos 30) ∷ []

heartbeats_expired_example : heartbeats granted late ≡ granted
heartbeats_expired_example = heartbeats_expired granted (pos 131) late (omega arith) (omega arith)
