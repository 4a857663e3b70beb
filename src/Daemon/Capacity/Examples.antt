-- ===== src/Daemon/Capacity/Examples.antt =====
-- The theorems on capacity at concrete limits.
use opencode_cycle_plugin.Prelude.{ℕ, ◌≡◌, ◌≤◌, refl, Option, none, some, List, [], ◌∷◌}
use opencode_cycle_plugin.Prelude.Int.{pos}
use opencode_cycle_plugin.Daemon.Capacity.{
  WorkClass, remote_model, build, admitted, or_zero, new, try_admit, Call, call_try_admit,
  call_backoff, after_all,
}
use opencode_cycle_plugin.Daemon.Capacity.Limits.{active_within_limits}

abbrev one_build : WorkClass → Option ℕ
one_build build = some 1
one_build _ = none

abbrev calls : List Call
calls =
    call_try_admit build (pos 0)
    ∷ call_backoff 3 (pos 9)
    ∷ call_try_admit (remote_model 3) (pos 4)
    ∷ call_try_admit build (pos 5)
    ∷ []

active_within_limits_example : or_zero ((after_all (new one_build) calls).active build) ≤ 1
active_within_limits_example = active_within_limits one_build calls build

build_admitted : (try_admit (new one_build) build (pos 0)).1 ≡ admitted
unfolding try_admit new
build_admitted = refl
