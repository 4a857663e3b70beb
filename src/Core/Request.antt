-- ===== src/Core/Request.antt =====
-- The request and its amendments, crates/workflow-core/src/request.rs, without the digests.
pub mod Sequence
mod Examples
use opencode_cycle_plugin.Prelude.{
  ℕ, ◌+◌, String, Bool, Option, none, some, List, [], ◌∷◌, ◌++◌, Result, ok, err, ◌>>=◌, ◌>>◌, leb,
  ◌==◌, if◌then◌else◌, length, u32_max,
}

-- A digest of 32 bytes and a UTC instant are compared only: a number stands for each.
abbrev pub ContentDigest : Type 0
ContentDigest = ℕ

abbrev pub WorkflowTimestamp : Type 0
WorkflowTimestamp = ℕ

pub record RequestAmendment : Type 0 where
  pub sequence : ℕ  -- u32
  pub text : String
  pub received_at : WorkflowTimestamp

pub record RequestRecord : Type 0 where
  pub original_text : String
  pub attachment_hashes : List ContentDigest
  pub amendments : List RequestAmendment

pub data RequestError : Type 0 where
  invalid_amendment_sequence too_many_amendments : RequestError

-- `u32::try_from(index)?.checked_add(1)?`
abbrev pub next_sequence : ℕ → Result ℕ RequestError
next_sequence index =
    if leb index u32_max
    then (if leb (index + 1) u32_max then ok (index + 1) else err too_many_amendments)
    else err too_many_amendments

-- the loop of `try_from`, from an index on
check_sequences : ℕ → List RequestAmendment → Result (Unit {0}) RequestError
check_sequences index [] = ok tt
check_sequences index (amendment ∷ rest) =
    let later = check_sequences (index + 1) rest in
    (do
      expected ← next_sequence index
      if amendment.sequence == expected then later else err invalid_amendment_sequence)

-- `RequestRecord::try_from`, which runs when a stored record is read; the unchecked record has the
-- same fields
unfoldable pub try_from : RequestRecord → Result RequestRecord RequestError
unfolding check_sequences
try_from value = do check_sequences 0 value.amendments; ok value

unfoldable pub new : String → List ContentDigest → RequestRecord
new original_text attachment_hashes = record {
  original_text = original_text;
  attachment_hashes = attachment_hashes;
  amendments = [];
}

unfoldable pub append_amendment :
    RequestRecord → String → WorkflowTimestamp → RequestRecord × Result (Unit {0}) RequestError
append_amendment r text received_at = elim (next_sequence (length r.amendments)) [
  | err e ↦ (r, err e)
  | ok sequence ↦ (
    record r {
      amendments =
          r.amendments
          ++ record { sequence = sequence; text = text; received_at = received_at } ∷ [];
    },
    ok tt,
  )
]
