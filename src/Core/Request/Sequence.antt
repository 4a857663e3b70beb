-- ===== src/Core/Request/Sequence.antt =====
-- Amendments are numbered from one without a gap (crates/workflow-core/src/request.rs).
use opencode_cycle_plugin.Prelude.{
  ℕ, ◌+◌, ◌≤◌, ◌<◌, ◌≡◌, refl, ◌↔◌, String, true, List, [], ◌∷◌, ◌++◌, ok, length, length-append,
  arith, u32_max, is_ok,
}
use opencode_cycle_plugin.Core.Request.{
  RequestAmendment, RequestRecord, WorkflowTimestamp, check_sequences, try_from, append_amendment,
}

-- the sequence numbers count up from the one after `index`, and fit in a u32
abbrev pub Numbered : ℕ → List RequestAmendment → Type 0
Numbered index [] = Unit
Numbered index (a ∷ rest) =
    (a.sequence ≡ index + 1) × (index + 1 ≤ u32_max) × Numbered (index + 1) rest

check_sequences_iff :
    (index : ℕ) (rest : List RequestAmendment)
    → (check_sequences index rest ≡ ok tt) ↔ Numbered index rest
unfolding check_sequences
check_sequences_iff index [] = (λ _. tt, λ _. refl)
check_sequences_iff index (a ∷ rest) = ground (arith, check_sequences_iff (index + 1) rest)

-- A stored record is accepted exactly when its amendments are numbered 1, 2, 3, ... within u32, and
-- what is read back is then the record itself, never another.
pub try_from_iff :
    (r read : RequestRecord) → (try_from r ≡ ok read) ↔ ((read ≡ r) × Numbered 0 r.amendments)
unfolding try_from
try_from_iff r read = ground (arith, check_sequences_iff 0 r.amendments)

Numbered-append :
    (index : ℕ) (rest : List RequestAmendment) (a : RequestAmendment)
    → Numbered index rest
    → a.sequence ≡ index + length rest + 1
    → a.sequence ≤ u32_max
    → Numbered index (rest ++ a ∷ [])
Numbered-append index [] a h e k = omega arith
Numbered-append index (b ∷ rest) a h e k =
    (h.0, h.1, Numbered-append (index + 1) rest a h.2 (omega arith) k)

-- Appending to a record that would be read back gives a record that would be read back, on success
-- and on failure; it fails exactly when there are 2 ^ 32 - 1 amendments or more, and else the record
-- has one amendment more.
pub try_from-append_amendment :
    (r : RequestRecord) (text : String) (at : WorkflowTimestamp)
    → try_from r ≡ ok r
    → let (r', result) = append_amendment r text at in
      (try_from r' ≡ ok r')
      × ((is_ok result ≡ true) ↔ (length r.amendments < u32_max))
      × ((is_ok result ≡ true) → length r'.amendments ≡ length r.amendments + 1)
unfolding append_amendment
try_from-append_amendment r text at h =
    let new_one : RequestAmendment = record {
      sequence = length r.amendments + 1;
      text = text;
      received_at = at;
    } in
    let r' : RequestRecord = record r { amendments = r.amendments ++ new_one ∷ [] } in
    let numbered = ((try_from_iff r r).0 h).1 in
    let longer = Numbered-append 0 r.amendments new_one numbered in
    ground (arith, longer, try_from_iff r' r', length-append r.amendments (new_one ∷ []))
