-- ===== src/Store/Revisions.antt =====
-- A plan that is saved again, crates/workflow-store/src/goals.rs.
use opencode_cycle_plugin.Prelude.{
  ℕ, Bool, true, false, Option, none, some, Result, ok, err, String, ◌≡◌, refl, arith, fail_if,
}
use opencode_cycle_plugin.Core.Request.{WorkflowTimestamp}
use opencode_cycle_plugin.Store.Tables.{StoreError, sqlite}
use opencode_cycle_plugin.Store.Documents.{Database, write}
use opencode_cycle_plugin.Store.Plans.{
  save_goal_plan, save_valid_plan, valid_plan, insert_plan, find_plan, with_plan,
}

module _ (digest : String → ℕ) (d : Database) (goal_id : ℕ) (session content : String)
    (now later : WorkflowTimestamp) where
  -- the plan is among those of the database, and may be saved
  record HasPlan (revision : ℕ) (t : Database) : Type 0 where
    valid : valid_plan t session content ≡ ok tt
    found : find_plan digest goal_id (digest content) t.plans ≡ some revision

  again_of_found :
      (t : Database) (revision : ℕ)
      → HasPlan revision t
      → save_goal_plan digest t goal_id session content later ≡ (t, ok revision)
  unfolding save_goal_plan
  again_of_found t revision h = rw (h.valid, save_valid_plan, h.found) refl

  write_plan-HasPlan :
      (refused : Bool) (revision next : ℕ)
      → valid_plan d session content ≡ ok tt
      → (write d (fail_if refused sqlite) (with_plan d goal_id session content now next, next)).1
        ≡ ok revision
      → HasPlan revision
          (write d (fail_if refused sqlite) (with_plan d goal_id session content now next, next)).0
  unfolding find_plan
  write_plan-HasPlan true revision next valid h = absurd (cc)
  write_plan-HasPlan false revision next valid h = record {
    valid = valid;
    found = ground (arith, h);
  }

  insert_plan-HasPlan :
      (found : Option ℕ) (revision : ℕ)
      → valid_plan d session content ≡ ok tt
      → find_plan digest goal_id (digest content) d.plans ≡ found
      → (insert_plan d goal_id session content now found).1 ≡ ok revision
      → HasPlan revision (insert_plan d goal_id session content now found).0
  insert_plan-HasPlan (some old) revision valid found h = record {
    valid = valid;
    found = ground (arith, found, h);
  }
  insert_plan-HasPlan none revision valid found h = write_plan-HasPlan _ revision _ valid h

  save_valid_plan-HasPlan :
      (checked : Result (Unit {0}) StoreError) (revision : ℕ)
      → valid_plan d session content ≡ checked
      → (save_valid_plan digest d goal_id session content now checked).1 ≡ ok revision
      → HasPlan revision (save_valid_plan digest d goal_id session content now checked).0
  save_valid_plan-HasPlan (err e) revision valid h = absurd (cc)
  save_valid_plan-HasPlan (ok _) revision valid h = insert_plan-HasPlan _ revision valid refl h

  -- A plan that was saved, sent again for the same goal in the same session, is not saved again: the
  -- answer is the revision that it has, and nothing changes.
  pub save_goal_plan_again :
      (revision : ℕ)
      → (save_goal_plan digest d goal_id session content now).1 ≡ ok revision
      → let saved = (save_goal_plan digest d goal_id session content now).0 in
        save_goal_plan digest saved goal_id session content later ≡ (saved, ok revision)
  unfolding save_goal_plan
  save_goal_plan_again revision h =
      again_of_found _ revision
        (save_valid_plan-HasPlan (valid_plan d session content) revision refl h)
