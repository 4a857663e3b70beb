-- ===== src/Ledger/Chain/Examples.antt =====
-- Two events of one byte, under a digest that is only a weighted sum.
use opencode_cycle_plugin.Prelude.{
  ℕ, ◌+◌, ◌*◌, ◌≡◌, ◌↔◌, ◌⊎◌, refl, none, List, [], ◌∷◌, ok, length,
}
use opencode_cycle_plugin.Core.Candidate.{write_u64}
use opencode_cycle_plugin.Ledger.Chain.{
  LedgerEntry, valid, broken, entry_hash, Coding, head, calculate_hash, new, append, verify_entries,
  verify,
}
use opencode_cycle_plugin.Ledger.Chain.Appended.{events, append_all, verify_iff}

abbrev weigh : ℕ → List ℕ → ℕ
weigh n [] = 0
weigh n (b ∷ bytes) = n * b + weigh (n + 1) bytes

abbrev coding : Coding ℕ ℕ
coding = record {
  canonical_bytes = λ event. ok (event ∷ []);
  digest_of = weigh 1;
  as_bytes = λ hash. hash ∷ [];
}

abbrev two : List (LedgerEntry ℕ)
two = (append coding (append coding [] 7).0 9).0

two_valid : verify coding two (head two) ≡ valid 2 (head two)
unfolding verify verify_entries append new calculate_hash head write_u64
two_valid = refl

abbrev altered : List (LedgerEntry ℕ) → List (LedgerEntry ℕ)
altered [] = []
altered (e ∷ entries) = record e { event = 8 } ∷ entries

altered_broken : verify coding (altered two) none ≡ broken entry_hash 0
unfolding verify verify_entries append new calculate_hash head write_u64
altered_broken = refl

verify_iff_example : (verify coding two (head two) ≡ valid 2 (head two)) ↔ (
    (append_all coding [] (events two) ≡ ok two)
    × (2 ≡ length two)
    × (head two ≡ head two)
    × ((head two ≡ none) ⊎ (head two ≡ head two)))
verify_iff_example = verify_iff coding two (head two) 2 (head two)
