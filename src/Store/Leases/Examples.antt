-- ===== src/Store/Leases/Examples.antt =====
-- A lease of ten milliseconds for work that cannot be repeated, and one for work that can.
use opencode_cycle_plugin.Prelude.{ℕ, ◌+◌, ◌≡◌, refl, Bool, true, List, [], ◌∷◌, ok, All, inr, ◌↔◌}
use opencode_cycle_plugin.Prelude.Int.{pos, ◌+ℤ◌, ◌<ℤ◌, is_i64}
use opencode_cycle_plugin.Prelude.Map
use opencode_cycle_plugin.Core.Lease
use opencode_cycle_plugin.Core.Lease.{Lease, ActionSafety, idempotent, non_idempotent, reconcile}
use opencode_cycle_plugin.Store.Leases.{LeaseTable, active, acquired, acquire_lease}
use opencode_cycle_plugin.Store.Leases.Grant.{IsFree, granted, acquire_lease_iff}
use opencode_cycle_plugin.Store.Leases.Review.{
  UnderReview, IsOther, LeaseRequest, acquiring, beating, releasing, serve_leases,
  serve_leases-UnderReview,
}

abbrev known : ℕ → Bool
known task = true

abbrev empty : LeaseTable
empty = record { read_write = true; rows = [] }

abbrev lease : ℕ → ℕ → ActionSafety → Lease
lease id now safety = record {
  id = id;
  task_id = 5;
  owner = 8;
  acquired_at_unix_millis = pos now;
  expires_at_unix_millis = pos (now + 10);
  safety = safety;
}

abbrev replayed : LeaseTable
replayed = (acquire_lease known empty 1 5 8 (pos 0) (pos 10) idempotent).0

granted_again :
    (acquire_lease known replayed 2 5 8 (pos 11) (pos 10) idempotent).1
    ≡ ok (acquired (lease 2 11 idempotent))
unfolding acquire_lease Lease.acquire reconcile Map.get Map.insert ◌+ℤ◌
granted_again = refl

acquire_lease_iff_example :
    let t' = record replayed {
      rows = Map.insert 5 (lease 2 11 idempotent, active) replayed.rows;
    } in
    (acquire_lease known replayed 2 5 8 (pos 11) (pos 10) idempotent
      ≡ (t', ok (acquired (lease 2 11 idempotent))))
    ↔ ((lease 2 11 idempotent ≡ granted known replayed 2 5 8 (pos 11) (pos 10) idempotent)
        × (t' ≡ record replayed {
          rows =
              Map.insert 5
                (granted known replayed 2 5 8 (pos 11) (pos 10) idempotent, active)
                replayed.rows;
        })
        × (replayed.read_write ≡ true)
        × (pos 0 <ℤ pos 10)
        × (is_i64 (pos 11 +ℤ pos 10) ≡ true)
        × IsFree true (pos 11) (Map.get 5 replayed.rows))
acquire_lease_iff_example =
    acquire_lease_iff known replayed 2 5 8 (pos 11) (pos 10) idempotent
      (record replayed { rows = Map.insert 5 (lease 2 11 idempotent, active) replayed.rows })
      (lease 2 11 idempotent)

abbrev reviewed : LeaseTable
reviewed =
    (acquire_lease known (acquire_lease known empty 1 5 8 (pos 0) (pos 10) non_idempotent).0 2 5 9
      (pos 11) (pos 10) idempotent).0

under_review : UnderReview 5 (lease 1 0 non_idempotent) reviewed
unfolding acquire_lease Lease.acquire reconcile Map.get Map.insert ◌+ℤ◌
under_review = (refl, (inr (refl, refl, refl), tt))

abbrev requests : List LeaseRequest
requests =
    beating 1 (pos 5) (pos 10)
    ∷ acquiring 3 5 9 (pos 50) (pos 10) idempotent
    ∷ acquiring 4 6 9 (pos 50) (pos 10) idempotent
    ∷ releasing 4
    ∷ []

others : All (IsOther 5 (lease 1 0 non_idempotent)) requests
others = (tt, ((λ e. absurd (cc)), ((λ e. absurd (cc)), ((λ e. absurd (cc)), tt))))

serve_leases-UnderReview_example :
    UnderReview 5 (lease 1 0 non_idempotent) (serve_leases known reviewed requests)
serve_leases-UnderReview_example =
    serve_leases-UnderReview 5 (lease 1 0 non_idempotent) known reviewed requests others
      under_review
