-- ===== src/Core/Architecture/Coverage.antt =====
-- What a validated plan covers, crates/workflow-core/src/architecture.rs.
use text.Mathlib.TextEquality.{eq_iff}
use text.Mathlib.Text.{◌==◌ as str_eq}
use opencode_cycle_plugin.Prelude.{
  str_eq_trans, str_eq_join, Bool, true, false, not, ◌||◌, Option, none, some, List, [], ◌∷◌, ok,
  fail_if, String, ◌≡◌, refl, sym, ◌∙◌, subst, arith, if◌then◌else◌, Bool-cases, inl, inr, any, All,
  All-map, is_some, bind_inv, fail_if_inv,
}
use opencode_cycle_plugin.Core.Architecture.{
  Requirement, PlannedTask, Index, covers, put, index_requirements, cover, cover_tasks,
  check_coverage, check_requirement, check_task, is_linked, invalid_requirement, invalid_task,
  unknown_requirement, text_before,
}

covers-put :
    (k id : String) (v : Bool) (index : Index)
    → covers id (put k v index) ≡ (if str_eq k id then some v else covers id index)
unfolding covers put
covers-put k id v [] = refl
covers-put k id v ((j, c) ∷ rest) = elim (Bool-cases (str_eq j k)) [
  | inl same ↦ ground (arith, str_eq_trans j k id same)
  | inr other ↦ elim (Bool-cases (text_before k j)) [
    | inl before ↦ rw (other, before) refl
    | inr after ↦ elim (Bool-cases (str_eq j id)) [
      | inl here ↦ elim (Bool-cases (str_eq k id)) [
        | inl there ↦ absurd (ground (arith, str_eq_join j k id here there))
        | inr elsewhere ↦ rw (other, after, here, elsewhere) refl
      ]
      | inr away ↦ rw (other, after, away) (covers-put k id v rest)
    ]
  ]
]

abbrev pub requires : String → List Requirement → Bool
requires id rs = any (λ r. str_eq r.id id) rs

abbrev pub lists : String → List String → Bool
lists id ids = any (λ i. str_eq i id) ids

abbrev pub any_lists : String → List PlannedTask → Bool
any_lists id ts = any (λ t. lists id t.requirement_ids) ts

if_join {ℓ} :
    {A : Type ℓ} (a b : Bool) (v w x y : A)
    → x ≡ (if b then v else y)
    → y ≡ (if a then v else w)
    → x ≡ (if a || b then v else w)
if_join true true v w x y e f = e
if_join true false v w x y e f = e ∙ f
if_join false true v w x y e f = e
if_join false false v w x y e f = e ∙ f

index_requirements_lem :
    (index out : Index) (rs : List Requirement) (id : String)
    → index_requirements index rs ≡ ok out
    → covers id out ≡ (if requires id rs then some false else covers id index)
unfolding index_requirements
index_requirements_lem index out [] id h =
    let same : index ≡ out = ground (arith, h) in rw same refl
index_requirements_lem index out (r ∷ rs) id h =
    let (_, _, h1) = bind_inv (check_requirement r) _ out h in
    let (_, _, h2) =
      bind_inv (fail_if (is_some (covers r.id index)) invalid_requirement) _ out h1 in
    if_join (str_eq r.id id) (requires id rs) _ _ _ _
      (index_requirements_lem (put r.id false index) out rs id h2) (covers-put r.id id false index)

-- the ids are known, and become covered
record IsCover (ids : List String) (index out : Index) : Type 0 where
  known : All (λ id. is_some (covers id index) ≡ true) ids
  same : (id : String) → is_some (covers id out) ≡ is_some (covers id index)
  covered : (id : String) → covers id out ≡ (if lists id ids then some true else covers id index)

put_known :
    (k id : String) (index : Index)
    → is_some (covers k index) ≡ true
    → is_some (covers id (put k true index)) ≡ is_some (covers id index)
put_known k id index h = elim (Bool-cases (str_eq k id)) [
  | inl here ↦
      rw (covers-put k id true index, here)
        (sym (subst (λ j. is_some (covers j index) ≡ true) ((eq_iff k id).0 here) h))
  | inr away ↦ ground (arith, covers-put k id true index, away)
]

cover-IsCover :
    (linked : List String) (index out : Index) (ids : List String)
    → cover linked index ids ≡ ok out
    → IsCover ids index out
unfolding cover
cover-IsCover linked index out [] h =
    let same : index ≡ out = ground (arith, h) in
    record { known = tt; same = λ id. rw same refl; covered = λ id. rw same refl }
cover-IsCover linked index out (i ∷ ids) h =
    let (_, _, h1) = bind_inv (fail_if (is_linked i linked) invalid_task) _ out h in
    let (_, k, h2) =
      bind_inv (fail_if (not (is_some (covers i index))) (unknown_requirement i)) _ out h1 in
    let known : is_some (covers i index) ≡ true =
      ground (arith, fail_if_inv (not (is_some (covers i index))) (unknown_requirement i) _ k) in
    let rest = cover-IsCover (i ∷ linked) (put i true index) out ids h2 in
    record {
      known = (
        known,
        All-map _ _ (λ id there. sym (put_known i id index known) ∙ there) ids rest.known,
      );
      same = λ id. rest.same id ∙ put_known i id index known;
      covered = λ id.
          if_join (str_eq i id) (lists id ids) _ _ _ _ (rest.covered id)
            (covers-put i id true index);
    }

record AreCovers (ts : List PlannedTask) (index out : Index) : Type 0 where
  known : All (λ t. All (λ id. is_some (covers id index) ≡ true) t.requirement_ids) ts
  covered : (id : String) → covers id out ≡ (if any_lists id ts then some true else covers id index)

cover_tasks-AreCovers :
    (index out : Index) (ts : List PlannedTask)
    → cover_tasks index ts ≡ ok out
    → AreCovers ts index out
unfolding cover_tasks
cover_tasks-AreCovers index out [] h =
    let same : index ≡ out = ground (arith, h) in
    record { known = tt; covered = λ id. rw same refl }
cover_tasks-AreCovers index out (t ∷ ts) h =
    let (_, _, h1) = bind_inv (check_task t) _ out h in
    let (next, e, h2) =
      bind_inv (cover [] index t.requirement_ids) (λ next. cover_tasks next ts) out h1 in
    let one = cover-IsCover [] index next t.requirement_ids e in
    let rest = cover_tasks-AreCovers next out ts h2 in
    record {
      known = (
        one.known,
        All-map _ _
            (λ u ids. All-map _ _ (λ id there. sym (one.same id) ∙ there) u.requirement_ids ids) ts
            rest.known,
      );
      covered = λ id.
          if_join (lists id t.requirement_ids) (any_lists id ts) _ _ _ _ (rest.covered id)
            (one.covered id);
    }

check_coverage_lem :
    (index : Index) (id : String) (v : Bool)
    → check_coverage index ≡ ok tt
    → covers id index ≡ some v
    → v ≡ true
unfolding check_coverage covers
check_coverage_lem [] id v h e = cc
check_coverage_lem ((k, covered) ∷ rest) id v h e =
    ground (arith, check_coverage_lem rest id v, h, e)

own_ids : (rs : List Requirement) → All (λ r. requires r.id rs ≡ true) rs
own_ids [] = tt
own_ids (r ∷ rs) = (
  ground (arith, (eq_iff r.id r.id).1 refl),
  All-map _ _ (λ q h. ground (arith, h)) rs (own_ids rs),
)

known_by :
    (required : Bool) (found : Option Bool)
    → found ≡ (if required then some false else none)
    → is_some found ≡ true
    → required ≡ true
known_by true found e h = refl
known_by false found e h = absurd (ground (arith, e, h))

covered_by :
    (listed required : Bool) (out : Index) (id : String) {before : Option Bool}
    → check_coverage out ≡ ok tt
    → required ≡ true
    → before ≡ (if required then some false else none)
    → covers id out ≡ (if listed then some true else before)
    → listed ≡ true
covered_by true required out id h own index e = refl
covered_by false required out id {before = before} h own index e =
    check_coverage_lem out id false h (e ∙ index ∙ rw own refl)

-- The requirements and the tasks of a plan fit: each requirement is among those of some task, and a
-- task names only requirements of the plan.
pub record IsCovering (rs : List Requirement) (ts : List PlannedTask) : Type 0 where
  pub implemented : All (λ r. any_lists r.id ts ≡ true) rs
  pub known : All (λ t. All (λ id. requires id rs ≡ true) t.requirement_ids) ts

pub index_and_cover-IsCovering :
    (rs : List Requirement) (ts : List PlannedTask) (required out : Index)
    → index_requirements [] rs ≡ ok required
    → cover_tasks required ts ≡ ok out
    → check_coverage out ≡ ok tt
    → IsCovering rs ts
unfolding covers
index_and_cover-IsCovering rs ts required out i c h =
    let all = cover_tasks-AreCovers required out ts c in
    let index = λ (id : String). index_requirements_lem [] required rs id i in
    record {
      implemented =
          All-map _ _
            (λ r own.
              covered_by (any_lists r.id ts) (requires r.id rs) out r.id h own (index r.id)
                (all.covered r.id))
            rs (own_ids rs);
      known =
          All-map _ _
            (λ t ids.
              All-map _ _
                (λ id there. known_by (requires id rs) (covers id required) (index id) there)
                t.requirement_ids ids)
            ts all.known;
    }
