-- ===== src/Core/Request/Examples.antt =====
-- The theorems on requests at concrete records.
use opencode_cycle_plugin.Prelude.{◌≡◌, ◌↔◌, [], ◌∷◌, ok}
use opencode_cycle_plugin.Core.Request.{RequestRecord, try_from}
use opencode_cycle_plugin.Core.Request.Sequence.{Numbered, try_from_iff}

abbrev amended : RequestRecord
amended = record {
  original_text = "add a flag";
  attachment_hashes = [];
  amendments = record { sequence = 1; text = "and a test"; received_at = 5 } ∷ [];
}

try_from_iff_example :
    (try_from amended ≡ ok amended) ↔ ((amended ≡ amended) × Numbered 0 amended.amendments)
try_from_iff_example = try_from_iff amended amended
