-- ===== src/Daemon/Capacity.antt =====
-- Capacity limits, crates/workflowd/src/scheduler/classes.rs. A provider's name is compared only: a
-- number. The maps are looked up and written only: a `BTreeMap` is a function to `Option`.
pub mod Limits
mod Examples
use opencode_cycle_plugin.Prelude.{
  ℕ, zero, suc, ◌+◌, ◌-◌, Bool, true, false, Option, none, some, List, [], ◌∷◌, leb, ◌==◌,
  if◌then◌else◌,
}
use opencode_cycle_plugin.Prelude.Int.{ℤ, ltb_ℤ}

pub data WorkClass : Type 0 where
  remote_model : ℕ → WorkClass
  local_model build browser database indexing : WorkClass

pub data CapacityDecision : Type 0 where
  admitted at_capacity provider_backoff unconfigured : CapacityDecision

pub record CapacityLimiter : Type 0 where
  pub active : WorkClass → Option ℕ
  pub backoff_until : ℕ → Option ℤ
  pub limits : WorkClass → Option ℕ

abbrev pub is_class : WorkClass → WorkClass → Bool
is_class (remote_model p) (remote_model q) = p == q
is_class local_model local_model = true
is_class build build = true
is_class browser browser = true
is_class database database = true
is_class indexing indexing = true
is_class _ _ = false

abbrev pub or_zero : Option ℕ → ℕ
or_zero none = 0
or_zero (some n) = n

unfoldable pub put : WorkClass → ℕ → (WorkClass → Option ℕ) → WorkClass → Option ℕ
put class n m k = if is_class class k then some n else m k

unfoldable pub new : (WorkClass → Option ℕ) → CapacityLimiter
new limits = record { active = λ k. none; backoff_until = λ p. none; limits = limits }

abbrev pub is_after : Option ℤ → ℤ → Bool
is_after none now = false
is_after (some until) now = ltb_ℤ now until

abbrev pub is_backing_off : CapacityLimiter → WorkClass → ℤ → Bool
is_backing_off l (remote_model provider) now = is_after (l.backoff_until provider) now
is_backing_off l _ now = false

abbrev admit_below : CapacityLimiter → WorkClass → ℕ → ℕ → CapacityLimiter × CapacityDecision
admit_below l class limit active =
    if leb limit active
    then (record l { active = put class active l.active }, at_capacity)
    else (record l { active = put class (active + 1) l.active }, admitted)

unfoldable pub try_admit : CapacityLimiter → WorkClass → ℤ → CapacityLimiter × CapacityDecision
try_admit l class now =
    if is_backing_off l class now then (l, provider_backoff) else (elim (l.limits class) [
      | none ↦ (l, unconfigured)
      | some limit ↦ admit_below l class limit (or_zero (l.active class))
    ])

unfoldable pub release : CapacityLimiter → WorkClass → CapacityLimiter × Bool
release l class = elim (l.active class) [
  | none ↦ (l, false)
  | some zero ↦ (l, false)
  | some (suc active) ↦ (record l { active = put class active l.active }, true)
]

unfoldable pub backoff_provider : CapacityLimiter → ℕ → ℤ → CapacityLimiter
backoff_provider l provider until = record l {
  backoff_until = λ p. if provider == p then some until else l.backoff_until p;
}

-- the calls that a limiter receives
pub data Call : Type 0 where
  call_try_admit : WorkClass → ℤ → Call
  call_release : WorkClass → Call
  call_backoff : ℕ → ℤ → Call

unfoldable pub after : CapacityLimiter → Call → CapacityLimiter
after l (call_try_admit class now) = (try_admit l class now).0
after l (call_release class) = (release l class).0
after l (call_backoff provider until) = backoff_provider l provider until

unfoldable pub after_all : CapacityLimiter → List Call → CapacityLimiter
after_all l [] = l
after_all l (c ∷ cs) = after_all (after l c) cs
