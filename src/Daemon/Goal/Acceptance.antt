-- ===== src/Daemon/Goal/Acceptance.antt =====
-- Links that allow a completion are accepted, crates/workflowd/src/goal.rs.
use text.Mathlib.TextEquality.{eq_iff}
use text.Mathlib.Text.{◌==◌ as str_eq}
use opencode_cycle_plugin.Prelude.{
  Bool, true, false, Option, none, some, List, [], ◌∷◌, ok, String, ◌≡◌, ◌↔◌, refl, sym, ◌∙◌, arith,
  Bool-cases, inl, inr, All, any,
}
use opencode_cycle_plugin.Core.Workflow.{Workflow, WorkflowState}
use opencode_cycle_plugin.Store.Tables.{Store}
use opencode_cycle_plugin.Store.Workflows.{load_workflow}
use opencode_cycle_plugin.Store.Documents.{GoalLink}
use opencode_cycle_plugin.Daemon.Goal.{
  Milestones, complete, mention, record_state, record_link, record_links, any_unfinished,
  validate_completion,
}
use opencode_cycle_plugin.Daemon.Goal.Milestones.{
  mentioned, finished, mentioned-complete, mentioned-mention, or_false, is_over, state_is, link_is,
  record_links-LinksIn, IsCompletable, validate_completion-IsCompletable,
}

-- no milestone twice
abbrev IsUnique : Milestones → Type 0
IsUnique [] = Unit
IsUnique ((k, done) ∷ rest) = (mentioned k rest ≡ false) × IsUnique rest

str_eq_sym : (a b : String) → str_eq a b ≡ str_eq b a
str_eq_sym a b = ground (arith, eq_iff a b, eq_iff b a)

complete-IsUnique : (k : String) (ms : Milestones) → IsUnique ms → IsUnique (complete k ms)
unfolding complete mentioned
complete-IsUnique k [] h = (refl, tt)
complete-IsUnique k ((j, done) ∷ rest) h = elim (Bool-cases (str_eq j k)) [
  | inl same ↦
      let at : j ≡ k = (eq_iff j k).0 same in
      let alone : mentioned k rest ≡ false = rw (sym at) h.0 in rw same (alone, h.1)
  | inr other ↦ rw other (
    ground (arith, mentioned-complete k j rest, str_eq_sym j k, h.0),
    complete-IsUnique k rest h.1,
  )
]

mention-IsUnique : (k : String) (ms : Milestones) → IsUnique ms → IsUnique (mention k ms)
unfolding mention mentioned
mention-IsUnique k [] h = (refl, tt)
mention-IsUnique k ((j, done) ∷ rest) h = elim (Bool-cases (str_eq j k)) [
  | inl same ↦ rw same h
  | inr other ↦
      rw other (
        ground (arith, mentioned-mention k j rest, str_eq_sym j k, h.0),
        mention-IsUnique k rest h.1,
      )
]

unfinished_none :
    (ms : Milestones)
    → IsUnique ms
    → ((m : String) → mentioned m ms ≡ true → finished m ms ≡ true)
    → any_unfinished ms ≡ false
unfolding any_unfinished mentioned finished
unfinished_none [] h all = refl
unfinished_none ((k, done) ∷ rest) h all =
    let own : str_eq k k ≡ true = (eq_iff k k).1 refl in
    let first : done ≡ true = ground (arith, own, all k) in
    let others = unfinished_none rest h.1 (λ m named. elim (Bool-cases (str_eq k m)) [
      | inl same ↦
          let at : k ≡ m = (eq_iff k m).0 same in
          let twice : mentioned k rest ≡ true = rw at named in absurd (ground (arith, h.0, twice))
      | inr other ↦ ground (arith, other, named, all m)
    ]) in
    ground (arith, first, others)

record_state_over :
    (state : WorkflowState) (k : String) (ms : Milestones)
    → is_over state ≡ true
    → IsUnique ms
    → (next : Milestones) × (record_state state k ms ≡ ok next) × IsUnique next
record_state_over WorkflowState.completed k ms over h =
    (complete k ms, refl, complete-IsUnique k ms h)
record_state_over WorkflowState.cancelled k ms over h =
    (mention k ms, refl, mention-IsUnique k ms h)
record_state_over _ k ms over h = absurd (cc)

record_link_over :
    (w : Option Workflow) (k : String) (ms : Milestones)
    → state_is is_over w ≡ true
    → IsUnique ms
    → (next : Milestones) × (record_link w k ms ≡ ok next) × IsUnique next
record_link_over none k ms over h = absurd (cc)
record_link_over (some w) k ms over h = record_state_over w.state k ms over h

any_map {ℓ} :
    {A : Type ℓ} (P : A → Type 0) (q : A → Bool) (b : Bool)
    → ((a : A) → P a → q a ≡ true → b ≡ true)
    → (xs : List A) → All P xs
    → any q xs ≡ true
    → b ≡ true
any_map P q b f [] h e = absurd (cc)
any_map P q b f (x ∷ xs) h e = elim (Bool-cases (q x)) [
  | inl here ↦ f x h.0 here
  | inr later ↦ any_map P q b f xs h.1 (ground (arith, e, later))
]

module _ (s : Store) where
  record_links_over :
      (ls : List GoalLink) (ms : Milestones)
      → All (λ l. link_is s is_over l ≡ true) ls
      → IsUnique ms
      → (out : Milestones) × (record_links s ls ms ≡ ok out) × IsUnique out
  unfolding record_links
  record_links_over [] ms over h = (ms, refl, h)
  record_links_over (l ∷ ls) ms over h =
      let (next, e, unique) =
        record_link_over (load_workflow s l.workflow_id) l.milestone ms over.0 h in
      let (out, rest, last) = record_links_over ls next over.1 unique in (out, rw e rest, last)

  -- The checks of a completion succeed exactly when the goal has links, the workflow of each is stored
  -- and completed or cancelled, and each has a completed workflow with the same milestone.
  pub validate_completion_iff :
      (ls : List GoalLink) → (validate_completion s ls ≡ ok tt) ↔ IsCompletable s ls
  unfolding validate_completion mentioned finished
  validate_completion_iff ls = (
    validate_completion-IsCompletable s ls,
    λ h.
        let (out, e, unique) = record_links_over ls [] h.over tt in
        let facts = record_links-LinksIn s ls [] out e in
        let done = unfinished_none out unique (λ m named.
          facts.finishes m
          ∙ or_false _
          ∙ any_map _ (λ l. str_eq l.milestone m) _
              (λ l closed at.
                let same : l.milestone ≡ m = (eq_iff l.milestone m).0 at in rw same at closed)
              ls h.finished (sym (or_false _) ∙ sym (facts.mentions m) ∙ named)) in
        let linked = h.linked in ground (arith, e, done, linked),
  )
