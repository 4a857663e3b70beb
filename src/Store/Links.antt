-- ===== src/Store/Links.antt =====
-- A workflow has one goal, crates/workflow-store/src/goals.rs.
use opencode_cycle_plugin.Prelude.{
  Bool, true, false, not, ◌||◌, Option, none, some, ◌≡◌, refl, arith, ◌==◌, inl, inr, Bool-cases,
  List, [], ◌∷◌, All, fail_if, ltb, byte_len, is_blank,
}
use opencode_cycle_plugin.Store.Tables.{StoreError}
use opencode_cycle_plugin.Store.Documents.{Database, GoalLink, write, contains_nul}
use opencode_cycle_plugin.Store.Plans.{link_goal_workflow, add_link, insert_link, find_link}

-- no workflow stands in two rows
abbrev pub HaveOneGoal : List GoalLink → Type 0
HaveOneGoal [] = Unit
HaveOneGoal (l ∷ ls) = All (λ m. (l.workflow_id == m.workflow_id) ≡ false) ls × HaveOneGoal ls

find_link-All :
    (l : GoalLink) (ls : List GoalLink)
    → find_link l.workflow_id ls ≡ none
    → All (λ m. (l.workflow_id == m.workflow_id) ≡ false) ls
unfolding find_link
find_link-All l [] h = tt
find_link-All l (m ∷ ms) h = (ground (arith, h), find_link-All l ms (ground (arith, h)))

All-insert_link :
    (P : GoalLink → Type 0) (precedes : GoalLink → GoalLink → Bool) (l : GoalLink)
    (ls : List GoalLink)
    → P l
    → All P ls
    → All P (insert_link precedes l ls)
unfolding insert_link
All-insert_link P precedes l [] p h = (p, tt)
All-insert_link P precedes l (m ∷ ms) p h = elim (Bool-cases (precedes l m)) [
  | inl before ↦ rw before (p, h)
  | inr after ↦ rw after (h.0, All-insert_link P precedes l ms p h.1)
]

insert_link-HaveOneGoal :
    (precedes : GoalLink → GoalLink → Bool) (l : GoalLink) (ls : List GoalLink)
    → All (λ m. (l.workflow_id == m.workflow_id) ≡ false) ls
    → HaveOneGoal ls
    → HaveOneGoal (insert_link precedes l ls)
unfolding insert_link
insert_link-HaveOneGoal precedes l [] apart h = (tt, tt)
insert_link-HaveOneGoal precedes l (m ∷ ms) apart h = elim (Bool-cases (precedes l m)) [
  | inl before ↦ rw before (apart, h)
  | inr after ↦ rw after (
    All-insert_link _ precedes l ms (ground (arith, apart.0)) h.0,
    insert_link-HaveOneGoal precedes l ms apart.1 h.1,
  )
]

write-HaveOneGoal :
    (d d' : Database) (refused : Bool) (e : StoreError)
    → HaveOneGoal d.links
    → HaveOneGoal d'.links
    → HaveOneGoal (write {0} d (fail_if refused e) (d', tt)).0.links
write-HaveOneGoal d d' true e h h' = h
write-HaveOneGoal d d' false e h h' = h'

add_link-HaveOneGoal :
    (precedes : GoalLink → GoalLink → Bool) (d : Database) (l : GoalLink) (found : Option GoalLink)
    → find_link l.workflow_id d.links ≡ found
    → HaveOneGoal d.links
    → HaveOneGoal (add_link precedes d l found).0.links
add_link-HaveOneGoal precedes d l (some old) e h = h
add_link-HaveOneGoal precedes d l none e h =
    write-HaveOneGoal d (record d { links = insert_link precedes l d.links }) _ _ h
      (insert_link-HaveOneGoal precedes l d.links (find_link-All l d.links e) h)

-- Linking a workflow to a goal, accepted or refused, keeps each workflow in at most one row: a
-- workflow never serves two goals or two milestones.
pub link_goal_workflow-HaveOneGoal :
    (precedes : GoalLink → GoalLink → Bool) (d : Database) (l : GoalLink)
    → HaveOneGoal d.links
    → HaveOneGoal (link_goal_workflow precedes d l).0.links
unfolding link_goal_workflow
link_goal_workflow-HaveOneGoal precedes d l h = elim (Bool-cases (not d.store.read_write)) [
  | inl closed ↦ rw closed h
  | inr writable ↦
      elim (Bool-cases
        (is_blank l.milestone || ltb 4096 (byte_len l.milestone) || contains_nul l.milestone)) [
          | inl bad ↦ rw (writable, bad) h
          | inr fine ↦ rw (writable, fine) (add_link-HaveOneGoal precedes d l _ refl h)
        ]
]
