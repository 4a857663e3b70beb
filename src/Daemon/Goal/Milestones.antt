-- ===== src/Daemon/Goal/Milestones.antt =====
-- When the linked workflows allow a completion, crates/workflowd/src/goal.rs.
use text.Mathlib.TextEquality.{eq_iff}
use text.Mathlib.Text.{◌==◌ as str_eq}
use opencode_cycle_plugin.Prelude.{
  str_eq_trans, str_eq_join, Bool, true, false, ◌&&◌, ◌||◌, Option, none, some, List, [], ◌∷◌, ok,
  fail_if, String, ◌≡◌, refl, sym, ◌∙◌, arith, if◌then◌else◌, Bool-cases, inl, inr, is_empty, All,
  All-map, any, bind_inv, fail_if_inv,
}
use opencode_cycle_plugin.Core.Workflow.{Workflow, WorkflowState}
use opencode_cycle_plugin.Store.Tables.{Store}
use opencode_cycle_plugin.Store.Workflows.{load_workflow}
use opencode_cycle_plugin.Store.Documents.{GoalLink}
use opencode_cycle_plugin.Daemon.Goal.{
  no_link, unfinished_milestone, Milestones, complete, mention, record_state, record_link,
  record_links, any_unfinished, validate_completion,
}

-- the milestone is in the map, and its value
unfoldable pub mentioned : String → Milestones → Bool
mentioned m [] = false
mentioned m ((k, done) ∷ rest) = if str_eq k m then true else mentioned m rest

unfoldable pub finished : String → Milestones → Bool
finished m [] = false
finished m ((k, done) ∷ rest) = if str_eq k m then done else finished m rest

pub finished-complete :
    (k m : String) (ms : Milestones) → finished m (complete k ms) ≡ (str_eq k m || finished m ms)
unfolding finished complete
finished-complete k m [] = ground arith
finished-complete k m ((j, done) ∷ rest) = elim (Bool-cases (str_eq j k)) [
  | inl same ↦ ground (arith, str_eq_trans j k m same)
  | inr other ↦ elim (Bool-cases (str_eq j m)) [
    | inl here ↦ elim (Bool-cases (str_eq k m)) [
      | inl there ↦ absurd (ground (arith, str_eq_join j k m here there))
      | inr elsewhere ↦ rw (other, here, elsewhere) refl
    ]
    | inr away ↦ ground (arith, finished-complete k m rest)
  ]
]

finished-mention : (k m : String) (ms : Milestones) → finished m (mention k ms) ≡ finished m ms
unfolding finished mention
finished-mention k m [] = ground arith
finished-mention k m ((j, done) ∷ rest) = ground (arith, finished-mention k m rest)

pub mentioned-complete :
    (k m : String) (ms : Milestones) → mentioned m (complete k ms) ≡ (str_eq k m || mentioned m ms)
unfolding mentioned complete
mentioned-complete k m [] = ground arith
mentioned-complete k m ((j, done) ∷ rest) = elim (Bool-cases (str_eq j k)) [
  | inl same ↦ ground (arith, str_eq_trans j k m same)
  | inr other ↦ ground (arith, mentioned-complete k m rest)
]

pub mentioned-mention :
    (k m : String) (ms : Milestones) → mentioned m (mention k ms) ≡ (str_eq k m || mentioned m ms)
unfolding mentioned mention
mentioned-mention k m [] = ground arith
mentioned-mention k m ((j, done) ∷ rest) = elim (Bool-cases (str_eq j k)) [
  | inl same ↦ ground (arith, str_eq_trans j k m same)
  | inr other ↦ ground (arith, mentioned-mention k m rest)
]

finished_of_mentioned :
    (m : String) (ms : Milestones)
    → any_unfinished ms ≡ false
    → mentioned m ms ≡ true
    → finished m ms ≡ true
unfolding any_unfinished mentioned finished
finished_of_mentioned m [] h e = cc
finished_of_mentioned m ((j, done) ∷ rest) h e = ground (arith, finished_of_mentioned m rest)

abbrev pub is_completed : WorkflowState → Bool
is_completed WorkflowState.completed = true
is_completed _ = false

abbrev pub is_over : WorkflowState → Bool
is_over WorkflowState.completed = true
is_over WorkflowState.cancelled = true
is_over _ = false

-- a test on the stored state of a linked workflow
abbrev pub state_is : (WorkflowState → Bool) → Option Workflow → Bool
state_is test none = false
state_is test (some w) = test w.state

-- what one link adds to the map
record LinkIn (w : Option Workflow) (k : String) (ms next : Milestones) : Type 0 where
  over : state_is is_over w ≡ true
  finishes :
      (m : String) → finished m next ≡ ((state_is is_completed w && str_eq k m) || finished m ms)
  mentions : (m : String) → mentioned m next ≡ (str_eq k m || mentioned m ms)

record_link_lem :
    (w : Workflow) (state : WorkflowState) (k : String) (ms next : Milestones)
    → w.state ≡ state
    → record_state state k ms ≡ ok next
    → LinkIn (some w) k ms next
record_link_lem w WorkflowState.completed k ms next e h =
    let same : complete k ms ≡ next = ground (arith, h) in
    record {
      over = rw e refl;
      finishes = λ m. rw (e, sym same) (finished-complete k m ms);
      mentions = λ m. rw (sym same) (mentioned-complete k m ms);
    }
record_link_lem w WorkflowState.cancelled k ms next e h =
    let same : mention k ms ≡ next = ground (arith, h) in
    record {
      over = rw e refl;
      finishes = λ m. rw (e, sym same) (finished-mention k m ms);
      mentions = λ m. rw (sym same) (mentioned-mention k m ms);
    }
record_link_lem w _ k ms next e h = absurd (cc)

record_link-LinkIn :
    (w : Option Workflow) (k : String) (ms next : Milestones)
    → record_link w k ms ≡ ok next
    → LinkIn w k ms next
record_link-LinkIn none k ms next h = absurd (cc)
record_link-LinkIn (some w) k ms next h = record_link_lem w w.state k ms next refl h

or_join : (a b c x y : Bool) → x ≡ (b || y) → y ≡ (a || c) → x ≡ ((a || b) || c)
or_join true b c x y e f = ground arith
or_join false b c x y e f = ground arith

pub or_false : (a : Bool) → (a || false) ≡ a
or_false a = ground arith

module _ (s : Store) where
  abbrev pub link_is : (WorkflowState → Bool) → GoalLink → Bool
  link_is test l = state_is test (load_workflow s l.workflow_id)

  pub record LinksIn (ls : List GoalLink) (ms out : Milestones) : Type 0 where
    pub over : All (λ l. link_is is_over l ≡ true) ls
    pub finishes :
        (m : String)
        → finished m out
          ≡ (any (λ l. link_is is_completed l && str_eq l.milestone m) ls || finished m ms)
    pub mentions :
        (m : String) → mentioned m out ≡ (any (λ l. str_eq l.milestone m) ls || mentioned m ms)

  pub record_links-LinksIn :
      (ls : List GoalLink) (ms out : Milestones) → record_links s ls ms ≡ ok out → LinksIn ls ms out
  unfolding record_links
  record_links-LinksIn [] ms out h =
      let same : ms ≡ out = ground (arith, h) in
      record { over = tt; finishes = λ m. rw same refl; mentions = λ m. rw same refl }
  record_links-LinksIn (l ∷ ls) ms out h =
      let (next, e, f) =
        bind_inv (record_link (load_workflow s l.workflow_id) l.milestone ms) (record_links s ls)
          out h in
      let one = record_link-LinkIn (load_workflow s l.workflow_id) l.milestone ms next e in
      let rest = record_links-LinksIn ls next out f in
      record {
        over = (one.over, rest.over);
        finishes = λ m. or_join _ _ _ _ _ (rest.finishes m) (one.finishes m);
        mentions = λ m. or_join _ _ _ _ _ (rest.mentions m) (one.mentions m);
      }

  -- What a completion asks of the links: there is one, the workflow of each is completed or
  -- cancelled, and each has a completed workflow with the same milestone.
  pub record IsCompletable (ls : List GoalLink) : Type 0 where
    pub linked : is_empty ls ≡ false
    pub over : All (λ l. link_is is_over l ≡ true) ls
    pub finished :
        All (λ l. any (λ k. link_is is_completed k && str_eq k.milestone l.milestone) ls ≡ true) ls

  own_milestones :
      (ls : List GoalLink) → All (λ l. any (λ k. str_eq k.milestone l.milestone) ls ≡ true) ls
  own_milestones [] = tt
  own_milestones (l ∷ ls) = (
    ground (arith, (eq_iff l.milestone l.milestone).1 refl),
    All-map _ _ (λ k h. ground (arith, h)) ls (own_milestones ls),
  )

  pub validate_completion-IsCompletable :
      (ls : List GoalLink) → validate_completion s ls ≡ ok tt → IsCompletable ls
  unfolding validate_completion mentioned finished
  validate_completion-IsCompletable ls h =
      let (_, some_link, h1) = bind_inv (fail_if (is_empty ls) no_link) _ tt h in
      let (out, e, h2) = bind_inv (record_links s ls []) _ tt h1 in
      let facts = record_links-LinksIn ls [] out e in
      let all_done : any_unfinished out ≡ false =
        fail_if_inv (any_unfinished out) unfinished_milestone tt h2 in
      record {
        linked = fail_if_inv (is_empty ls) no_link _ some_link;
        over = facts.over;
        finished =
            All-map _ _
              (λ l own.
                sym (or_false _)
                ∙ sym (facts.finishes l.milestone)
                ∙ finished_of_mentioned l.milestone out all_done
                    (facts.mentions l.milestone ∙ or_false _ ∙ own))
              ls (own_milestones ls);
      }
