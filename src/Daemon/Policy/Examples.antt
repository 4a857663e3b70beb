-- ===== src/Daemon/Policy/Examples.antt =====
-- The theorems on admission at a concrete policy, with a load in whole percent.
use opencode_cycle_plugin.Prelude.{
  ℕ, ◌≡◌, ◌≤◌, refl, true, false, some, List, [], ◌∷◌, ltb, Bool, arith,
}
use opencode_cycle_plugin.Daemon.Policy.{
  AdmissionController, ResourceDemand, ResourceSample, build, admit, evaluate, evaluate_sampled,
  begin_tick,
}
use opencode_cycle_plugin.Daemon.Policy.Admission.{Request, admissions, admissions-begin_tick}

abbrev above : ℕ → ℕ → Bool
above a b = ltb b a

abbrev pressured : AdmissionController ℕ
pressured = record {
  admitted_this_tick = 3;
  policy = record {
    disk_reserve_bytes = 10;
    max_cpu_percent = 80;
    memory_reserve_bytes = 10;
    recovery_admissions_per_tick = 1;
  };
  pressured_last_tick = true;
  recovery_tick = false;
}

abbrev idle : ResourceSample ℕ
idle = record {
  available_disk_bytes = some 100;
  available_memory_bytes = some 100;
  cpu_usage_percent = some 5;
  owned_processes = some 0;
}

abbrev small : ResourceDemand
small = record { disk_bytes = 5; kind = build; memory_bytes = 5 }

abbrev requests : List (Request ℕ)
requests = (idle, small, false) ∷ (idle, small, true) ∷ []

one_admission : admissions above (begin_tick pressured) requests ≡ 1
unfolding admissions begin_tick evaluate evaluate_sampled
one_admission = refl

admissions-begin_tick_example : admissions above (begin_tick pressured) requests ≤ 1
admissions-begin_tick_example = admissions-begin_tick above pressured requests refl (omega arith)

small_admitted : (evaluate above pressured idle small true).1 ≡ admit
unfolding evaluate evaluate_sampled
small_admitted = refl
