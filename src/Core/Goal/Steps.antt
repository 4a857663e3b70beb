-- ===== src/Core/Goal/Steps.antt =====
-- What holds of a goal between two commands (crates/workflow-core/src/goal.rs).
use opencode_cycle_plugin.Prelude.{
  ℕ, ◌≤◌, ◌≡◌, refl, String, Bool, true, Option, none, some, List, [], ◌∷◌, arith, ok, err, is_some,
  u8_max,
}
use opencode_cycle_plugin.Core.Request.{WorkflowTimestamp}
use opencode_cycle_plugin.Core.Goal.{
  GoalState, GoalCommand, GoalError, Goal, is_terminal, can_pause, can_block, new, append_amendment,
  apply, run, start_planning, pause, resume, block, resume_blocked, invalid_transition,
}

abbrev pub marked_with : (GoalState → Bool) → Option GoalState → Bool
marked_with p none = true
marked_with p (some s) = p s

pub record IsSound (g : Goal) : Type 0 where
  pub paused_marked : g.state ≡ GoalState.paused → is_some g.paused_from ≡ true
  pub mark_paused : is_some g.paused_from ≡ true → g.state ≡ GoalState.paused
  pub pausable : marked_with can_pause g.paused_from ≡ true
  pub blocked_marked : g.state ≡ GoalState.blocked → is_some g.blocked_from ≡ true
  pub mark_blocked : is_some g.blocked_from ≡ true → g.state ≡ GoalState.blocked
  pub blockable : marked_with can_block g.blocked_from ≡ true
  pub word : g.continuations ≤ u8_max

apply-IsSound : (g : Goal) (c : GoalCommand) → IsSound g → IsSound (apply g c).0
unfolding apply
apply-IsSound g start_planning h = ground arith
apply-IsSound g _ h = ground arith

pub run_from-IsSound : (g : Goal) (cs : List GoalCommand) → IsSound g → IsSound (run g cs)
unfolding run
run_from-IsSound g [] h = h
run_from-IsSound g (c ∷ cs) h = run_from-IsSound (apply g c).0 cs (apply-IsSound g c h)

new-IsSound :
    (objective : String) (criteria constraints non_goals : List String) (n : ℕ) (g : Goal)
    → new objective criteria constraints non_goals n ≡ ok g
    → IsSound g
unfolding new
new-IsSound objective criteria constraints non_goals n g e = ground arith

-- A goal that `new` accepts stays sound whatever commands it is given, accepted or refused: it is
-- paused exactly while it remembers a pausable state to return to, blocked exactly while it
-- remembers a state that can be blocked, and its continuations fit in a u8.
pub goal_run-IsSound :
    (objective : String) (criteria constraints non_goals : List String) (n : ℕ)
    (cs : List GoalCommand) (g : Goal)
    → new objective criteria constraints non_goals n ≡ ok g
    → IsSound (run g cs)
goal_run-IsSound objective criteria constraints non_goals n cs g e =
    run_from-IsSound g cs (new-IsSound objective criteria constraints non_goals n g e)

-- A refused command leaves the goal as it was, every field of it.
pub goal_apply-err_unchanged :
    (g : Goal) (c : GoalCommand) (e : GoalError) → (apply g c).1 ≡ err e → (apply g c).0 ≡ g
unfolding apply
goal_apply-err_unchanged g start_planning e h = ground arith
goal_apply-err_unchanged g _ e h = ground arith

apply_terminal :
    (g : Goal) (c : GoalCommand)
    → is_terminal g.state ≡ true
    → apply g c ≡ (g, err invalid_transition)
unfolding apply
apply_terminal g start_planning h = ground arith
apply_terminal g _ h = ground arith

-- A completed or aborted goal refuses every command and every amendment, and does not change.
pub terminal_refuses :
    (g : Goal) (cs : List GoalCommand) (text : String) (at : WorkflowTimestamp)
    → is_terminal g.state ≡ true
    → (run g cs ≡ g) × (append_amendment g text at ≡ (g, err invalid_transition))
unfolding run append_amendment
terminal_refuses g [] text at h = (refl, rw h)
terminal_refuses g (c ∷ cs) text at h =
    (simp (apply_terminal g c h, (terminal_refuses g cs text at h).0), rw h)

-- From a sound goal, Pause and then Resume restore every field where Pause is accepted, and so do
-- Block and then ResumeBlocked where Block is accepted.
pub goal_suspend-resume :
    (g : Goal)
    → IsSound g
    → (can_pause g.state ≡ true → run g (pause ∷ resume ∷ []) ≡ g)
      × (can_block g.state ≡ true → run g (block ∷ resume_blocked ∷ []) ≡ g)
unfolding run apply
goal_suspend-resume g h = (λ p. ground arith, λ p. ground arith)
