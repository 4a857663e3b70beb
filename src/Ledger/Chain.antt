-- ===== src/Ledger/Chain.antt =====
-- The chain of the ledger's entries, crates/workflow-ledger/src/chain.rs. The JSON of an event and the
-- digest of bytes, which is SHA-256, are parameters, as the bytes of a digest are; a digest is compared
-- only, and a number stands for it.
pub mod Appended
mod Examples
use opencode_cycle_plugin.Prelude.{
  ℕ, suc, Bool, true, false, not, ◌&&◌, Option, none, some, List, [], ◌∷◌, ◌++◌, Result, ok, err,
  ltb, ◌==◌, if◌then◌else◌, length, is_some, u64_max,
}
use opencode_cycle_plugin.Core.Candidate.{Bytes, write_u64}

-- `b"opencode-workflow-ledger-entry-v1"`
abbrev pub entry_hash_domain : Bytes
entry_hash_domain =
    111 ∷ 112 ∷ 101 ∷ 110 ∷ 99 ∷ 111 ∷ 100 ∷ 101 ∷ 45 ∷ 119 ∷ 111 ∷ 114 ∷ 107 ∷ 102 ∷ 108 ∷ 111
    ∷ 119 ∷ 45 ∷ 108 ∷ 101 ∷ 100 ∷ 103 ∷ 101 ∷ 114 ∷ 45 ∷ 101 ∷ 110 ∷ 116 ∷ 114 ∷ 121 ∷ 45 ∷ 118
    ∷ 49 ∷ []

pub record LedgerEntry (Event : Type 0) : Type 0 where
  pub event : Event
  pub hash : ℕ
  pub previous_hash : Option ℕ
  pub sequence : ℕ  -- u64

pub data ChainFailure : Type 0 where
  entry_hash previous_hash sequence : ChainFailure

pub data ChainVerification : Type 0 where
  valid : ℕ → Option ℕ → ChainVerification
  broken : ChainFailure → ℕ → ChainVerification
  head_mismatch : Option ℕ → Option ℕ → ChainVerification

-- `E` is the error of the JSON coding.
pub data LedgerError (E : Type 0) : Type 0 where
  capacity : LedgerError E
  serialization : E → LedgerError E

-- what a digest is made of, by code of other libraries
pub record Coding (Event E : Type 0) : Type 0 where
  pub canonical_bytes : Event → Result Bytes E
  pub digest_of : Bytes → ℕ
  pub as_bytes : ℕ → Bytes

abbrev pub same_digest : Option ℕ → Option ℕ → Bool
same_digest none none = true
same_digest (some a) (some b) = a == b
same_digest _ _ = false

module _ {Event : Type 0} where
  -- a chain is its entries
  unfoldable pub head : List (LedgerEntry Event) → Option ℕ
  head [] = none
  head (e ∷ []) = some e.hash
  head (e ∷ f ∷ entries) = head (f ∷ entries)

module _ {Event E : Type 0} (coding : Coding Event E) where
  abbrev previous_bytes : Option ℕ → Bytes
  previous_bytes (some hash) = 1 ∷ coding.as_bytes hash
  previous_bytes none = 0 ∷ []

  abbrev hash_bytes : ℕ → Option ℕ → Result Bytes E → Result ℕ (LedgerError E)
  hash_bytes n previous (err e) = err (serialization e)
  hash_bytes n previous (ok event) =
      if ltb u64_max (length event)
      then err capacity
      else ok (
          coding.digest_of (
            entry_hash_domain
            ++ write_u64 n
            ++ previous_bytes previous
            ++ write_u64 (length event)
            ++ event))

  unfoldable pub calculate_hash : ℕ → Option ℕ → Event → Result ℕ (LedgerError E)
  calculate_hash n previous event = hash_bytes n previous (coding.canonical_bytes event)

  -- `LedgerEntry::new`
  unfoldable pub new : ℕ → Option ℕ → Event → Result (LedgerEntry Event) (LedgerError E)
  new n previous event = elim (calculate_hash n previous event) [
    | err e ↦ err e
    | ok hash ↦ ok (record { event = event; hash = hash; previous_hash = previous; sequence = n })
  ]

  abbrev pub push :
      List (LedgerEntry Event)
      → Result (LedgerEntry Event) (LedgerError E)
      → List (LedgerEntry Event) × Result (LedgerEntry Event) (LedgerError E)
  push entries (err e) = (entries, err e)
  push entries (ok entry) = (entries ++ entry ∷ [], ok entry)

  unfoldable pub append :
      List (LedgerEntry Event)
      → Event
      → List (LedgerEntry Event) × Result (LedgerEntry Event) (LedgerError E)
  append entries event =
      if ltb u64_max (length entries)
      then (entries, err capacity)
      else push entries (new (length entries) (head entries) event)

  -- the checks of one entry, and `rest` with the hash of it
  abbrev pub check_hash :
      ℕ
      → ℕ
      → Result ℕ (LedgerError E)
      → Result (Option ℕ) (ChainFailure × ℕ)
      → Result (Option ℕ) (ChainFailure × ℕ)
  check_hash n stored (err e) rest = err (entry_hash, n)
  check_hash n stored (ok hash) rest = if hash == stored then rest else err (entry_hash, n)

  -- the loop over the entries: the hash of the last one, or where the chain is broken
  unfoldable pub verify_entries :
      ℕ → Option ℕ → List (LedgerEntry Event) → Result (Option ℕ) (ChainFailure × ℕ)
  verify_entries n previous [] = ok previous
  verify_entries n previous (e ∷ entries) =
      let rest = verify_entries (suc n) (some e.hash) entries in
      if ltb u64_max n
      then err (sequence, u64_max)
      else if not (e.sequence == n)
      then err (sequence, n)
      else if not (same_digest e.previous_hash previous)
      then err (previous_hash, n)
      else check_hash n e.hash (calculate_hash n previous e.event) rest

  abbrev pub finish : ℕ → Option ℕ → Result (Option ℕ) (ChainFailure × ℕ) → ChainVerification
  finish entries expected (err (reason, n)) = broken reason n
  finish entries expected (ok last) =
      if is_some expected && not (same_digest expected last)
      then head_mismatch last expected
      else valid entries last

  unfoldable pub verify : List (LedgerEntry Event) → Option ℕ → ChainVerification
  verify entries expected = finish (length entries) expected (verify_entries 0 none entries)
