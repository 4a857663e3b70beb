-- ===== src/Daemon/Capacity/Limits.antt =====
-- The limits are kept (crates/workflowd/src/scheduler/classes.rs).
use opencode_cycle_plugin.Prelude.{
  ℕ, zero, suc, ◌+◌, ◌≤◌, true, Option, some, List, [], ◌∷◌, leb, ==_iff, ◌≡◌, refl, ap, inl, inr,
  arith, Bool-cases, Option-cases, subst, sym, ◌∙◌,
}
use opencode_cycle_plugin.Prelude.Int.{ℤ}
use opencode_cycle_plugin.Daemon.Capacity.{
  WorkClass, remote_model, local_model, build, browser, database, indexing, CapacityLimiter,
  admitted, is_class, is_backing_off, or_zero, put, new, try_admit, release, backoff_provider, Call,
  call_try_admit, call_release, call_backoff, after, after_all,
}

is_class-eq : (j k : WorkClass) → is_class j k ≡ true → j ≡ k
is_class-eq (remote_model p) (remote_model q) h = ap remote_model ((==_iff p q).0 h)
is_class-eq local_model local_model h = refl
is_class-eq build build h = refl
is_class-eq browser browser h = refl
is_class-eq database database h = refl
is_class-eq indexing indexing h = refl
is_class-eq _ _ h = ground arith

is_class_refl : (k : WorkClass) → is_class k k ≡ true
is_class_refl (remote_model p) = ground arith
is_class_refl local_model = refl
is_class_refl build = refl
is_class_refl browser = refl
is_class_refl database = refl
is_class_refl indexing = refl

record Within (limits : WorkClass → Option ℕ) (l : CapacityLimiter) : Type 0 where
  same : l.limits ≡ limits
  below : (k : WorkClass) → or_zero (l.active k) ≤ or_zero (limits k)

put-below :
    (limits : WorkClass → Option ℕ) (m : WorkClass → Option ℕ) (class : WorkClass) (n : ℕ)
    → ((k : WorkClass) → or_zero (m k) ≤ or_zero (limits k))
    → n ≤ or_zero (limits class)
    → (k : WorkClass) → or_zero (put class n m k) ≤ or_zero (limits k)
unfolding put
put-below limits m class n below fits k = elim (Bool-cases (is_class class k)) [
  | inl e ↦
      let room : n ≤ or_zero (limits k) =
        subst (λ j. n ≤ or_zero (limits j)) (is_class-eq class k e) fits in
      ground arith
  | inr e ↦ ground (arith, below k)
]

put-Within :
    (limits : WorkClass → Option ℕ) (l : CapacityLimiter) (class : WorkClass) (n : ℕ)
    → Within limits l
    → n ≤ or_zero (limits class)
    → Within limits (record l { active = put class n l.active })
put-Within limits l class n w fits = record {
  same = w.same;
  below = put-below limits l.active class n w.below fits;
}

try_admit-Within :
    (limits : WorkClass → Option ℕ) (l : CapacityLimiter) (class : WorkClass) (now : ℤ)
    → Within limits l
    → Within limits (try_admit l class now).0
unfolding try_admit
try_admit-Within limits l class now w = elim (Bool-cases (is_backing_off l class now)) [
  | inl e ↦ let kept : l ≡ (try_admit l class now).0 = ground arith in subst (Within limits) kept w
  | inr open_now ↦ elim (Option-cases (l.limits class)) [
    | inl e ↦
        let kept : l ≡ (try_admit l class now).0 = ground arith in subst (Within limits) kept w
    | inr (limit, e) ↦
        let active = or_zero (l.active class) in
        let fits = w.below class in
        let known : limits class ≡ some limit = ap (λ f. f class) (sym w.same) ∙ e in
        elim (Bool-cases (leb limit active)) [
          | inl reached ↦
              let next : record l { active = put class active l.active }
                  ≡ (try_admit l class now).0 =
                ground arith in
              subst (Within limits) next (put-Within limits l class active w fits)
          | inr free ↦
              let next : record l { active = put class (active + 1) l.active }
                  ≡ (try_admit l class now).0 =
                ground arith in
              subst (Within limits) next (put-Within limits l class (active + 1) w (ground arith))
        ]
  ]
]

release-Within :
    (limits : WorkClass → Option ℕ) (l : CapacityLimiter) (class : WorkClass)
    → Within limits l
    → Within limits (release l class).0
unfolding release
release-Within limits l class w = elim (Option-cases (l.active class)) [
  | inl e ↦ let kept : l ≡ (release l class).0 = ground arith in subst (Within limits) kept w
  | inr (zero, e) ↦
      let kept : l ≡ (release l class).0 = ground arith in subst (Within limits) kept w
  | inr (suc active, e) ↦
      let fits = w.below class in
      let next : record l { active = put class active l.active } ≡ (release l class).0 =
        ground arith in
      subst (Within limits) next (put-Within limits l class active w (ground arith))
]

after-Within :
    (limits : WorkClass → Option ℕ) (l : CapacityLimiter) (c : Call)
    → Within limits l
    → Within limits (after l c)
unfolding after backoff_provider
after-Within limits l (call_try_admit class now) w = try_admit-Within limits l class now w
after-Within limits l (call_release class) w = release-Within limits l class w
after-Within limits l (call_backoff provider until) w = record { same = w.same; below = w.below }

after_all-Within :
    (limits : WorkClass → Option ℕ) (l : CapacityLimiter) (cs : List Call)
    → Within limits l
    → Within limits (after_all l cs)
unfolding after_all
after_all-Within limits l [] w = w
after_all-Within limits l (c ∷ cs) w =
    after_all-Within limits (after l c) cs (after-Within limits l c w)

-- Whatever calls a new limiter receives, no class has more active work than its limit; a class
-- without a limit has none.
pub active_within_limits :
    (limits : WorkClass → Option ℕ) (calls : List Call) (class : WorkClass)
    → or_zero ((after_all (new limits) calls).active class) ≤ or_zero (limits class)
active_within_limits limits calls class =
    let start : Within limits (new limits) =
      unfold new in record { same = refl; below = λ k. omega arith } in
    (after_all-Within limits (new limits) calls start).below class

-- Work that is admitted and then released leaves the number of active works of every class as it was.
pub release-try_admit :
    (l : CapacityLimiter) (class : WorkClass) (now : ℤ) (k : WorkClass)
    → (try_admit l class now).1 ≡ admitted
    → or_zero ((release (try_admit l class now).0 class).0.active k) ≡ or_zero (l.active k)
unfolding try_admit release put
release-try_admit l class now k taken =
    let own = is_class_refl class in
    elim (Option-cases (l.limits class)) [
      | inl e ↦ absurd (ground arith)
      | inr (limit, e) ↦ elim (Bool-cases (is_class class k)) [
        | inl here ↦
            let same : l.active class ≡ l.active k = ap l.active (is_class-eq class k here) in
            ground arith
        | inr apart ↦ ground arith
      ]
    ]
