-- ===== src/Daemon/FairQueue/Selection.antt =====
-- Which task `pop` serves, crates/workflowd/src/scheduler/queue.rs.
use opencode_cycle_plugin.Prelude.{
  ℕ, suc, ◌+◌, true, false, none, some, List, [], ◌∷◌, ◌++◌, ◌≡◌, refl, ap, arith, length, All,
  All-map, Bool-cases, inl, inr, ◌≤◌, ◌↔◌,
}
use opencode_cycle_plugin.Prelude.Int.{◌≤ℤ◌}
use opencode_cycle_plugin.Daemon.FairQueue.{
  Entry, SchedulingState, ready, paused, blocked, Selected, is_ready, is_below, better, select,
}

-- no lower in priority, and no later at the same priority
abbrev pub Precedes : Entry → Entry → Type 0
Precedes e x =
    (x.task.priority ≤ℤ e.task.priority)
    × (e.task.priority ≤ℤ x.task.priority → e.sequence ≤ x.sequence)

-- it precedes every ready entry
abbrev pub IsGreatest : Entry → List Entry → Type 0
IsGreatest e es = All (λ x. x.state ≡ ready → Precedes e x) es

-- a selected entry is ready and greatest, and stands at its index
pub record IsBest (index : ℕ) (es : List Entry) (selected : ℕ × Entry) : Type 0 where
  pub is_served : (selected.1).state ≡ ready
  pub greatest : IsGreatest selected.1 es
  pub place :
      (before : List Entry) × (after : List Entry) × (es ≡ before ++ selected.1 ∷ after)
      × (selected.0 ≡ index + length before)

-- no entry is ready
abbrev pub IsIdle : List Entry → Type 0
IsIdle es = All (λ x. is_ready x.state ≡ false) es

abbrev pub SelectedIn : ℕ → List Entry → Selected → Type 0
SelectedIn index es none = IsIdle es
SelectedIn index es (some selected) = IsBest index es selected

Precedes-trans : (a b c : Entry) → is_below a b ≡ true → Precedes a c → Precedes b c
Precedes-trans a b c h k = ground (arith, k)

Precedes-self : (a : Entry) → Precedes a a
Precedes-self a = omega arith

Precedes-above : (a b : Entry) → is_below a b ≡ false → Precedes a b
Precedes-above a b h = ground arith

is_ready_iff : (s : SchedulingState) → (is_ready s ≡ true) ↔ (s ≡ ready)
is_ready_iff ready = ((λ _. refl), (λ _. refl))
is_ready_iff paused = ground arith
is_ready_iff blocked = ground arith

better-SelectedIn :
    (index : ℕ) (e : Entry) (es : List Entry) (later : Selected)
    → is_ready e.state ≡ true
    → SelectedIn (suc index) es later
    → SelectedIn index (e ∷ es) (better e index later)
better-SelectedIn index e es none r h = record {
  is_served = (is_ready_iff e.state).0 r;
  greatest = (
    (λ _. Precedes-self e),
    All-map _ _ (λ x idle is_one. absurd (ground (arith, idle, is_one))) es h,
  );
  place = ([], es, refl, ground arith);
}
better-SelectedIn index e es (some (i, best)) r h = elim (Bool-cases (is_below best e)) [
  | inl below ↦ rw below (record {
    is_served = (is_ready_iff e.state).0 r;
    greatest = (
      (λ _. Precedes-self e),
      All-map _ _ (λ x g is_one. Precedes-trans best e x below (g is_one)) es h.greatest,
    );
    place = ([], es, refl, ground arith);
  })
  | inr above ↦ rw above (record {
    is_served = h.is_served;
    greatest = ((λ _. Precedes-above best e above), h.greatest);
    place =
        let (before, after, split, at) = h.place in
        (e ∷ before, after, ap (λ xs. e ∷ xs) split, omega (arith, at));
  })
]

skip-SelectedIn :
    (index : ℕ) (e : Entry) (es : List Entry) (later : Selected)
    → is_ready e.state ≡ false
    → SelectedIn (suc index) es later
    → SelectedIn index (e ∷ es) later
skip-SelectedIn index e es none r h = (r, h)
skip-SelectedIn index e es (some (i, best)) r h = record {
  is_served = h.is_served;
  greatest = ((λ is_one. absurd (ground (arith, r, is_one))), h.greatest);
  place =
      let (before, after, split, at) = h.place in
      (e ∷ before, after, ap (λ xs. e ∷ xs) split, omega (arith, at));
}

pub select-SelectedIn : (index : ℕ) (es : List Entry) → SelectedIn index es (select index es)
unfolding select
select-SelectedIn index [] = tt
select-SelectedIn index (e ∷ es) = elim (Bool-cases (is_ready e.state)) [
  | inl r ↦ rw r (better-SelectedIn index e es _ r (select-SelectedIn (suc index) es))
  | inr r ↦ rw r (skip-SelectedIn index e es _ r (select-SelectedIn (suc index) es))
]
