-- ===== src/Core/Candidate.antt =====
-- The manifest of a candidate, crates/workflow-core/src/candidate.rs, and the canonical bytes that
-- its digest hashes, crates/workflow-core/src/digest.rs. Texts, digests and evidence ids are their
-- bytes; SHA-256 is not modelled, nor are the fields that only getters read.
pub mod Prefix
pub mod Canonical
mod Examples
use opencode_cycle_plugin.Prelude.{
  ℕ, zero, suc, ◌/◌, ◌%◌, Bool, true, false, not, Option, none, some, List, [], ◌∷◌, ◌++◌, Result,
  ok, err, ◌>>=◌, ◌>>◌, fail_if, ltb, ◌==◌, if◌then◌else◌, length, is_some,
}
use opencode_cycle_plugin.Core.Path.{FilePath, is_safe_relative}

abbrev pub Bytes : Type 0
Bytes = List ℕ

pub data CandidateFileKind : Type 0 where
  added deleted generated modified : CandidateFileKind

pub record CandidateFile : Type 0 where
  pub executable : Bool
  pub path : FilePath
  pub digest : Option Bytes
  pub kind : CandidateFileKind

pub record CandidateDigests : Type 0 where
  pub configuration : Bytes
  pub dependency_state : Bytes
  pub diff : Bytes
  pub environment : Bytes

pub data CandidateError : Type 0 where
  invalid_path duplicate_path invalid_digest_state : FilePath → CandidateError
  duplicate_evidence : Bytes → CandidateError

-- the four digests are in one record here
pub record CandidateManifest : Type 0 where
  pub candidate_id : ℕ
  pub base_revision : Option Bytes
  pub files : List CandidateFile
  pub digests : CandidateDigests
  pub delivery_payload_digest : Option Bytes
  pub evidence_ids : List Bytes

abbrev is_deleted : CandidateFileKind → Bool
is_deleted deleted = true
is_deleted _ = false

abbrev same_test : Bool → Bool → Bool
same_test true b = b
same_test false b = not b

-- `CandidateFile::new`
unfoldable pub new_file :
    FilePath → Option Bytes → CandidateFileKind → Result CandidateFile CandidateError
new_file path digest kind = do
  fail_if (not (is_safe_relative path)) (invalid_path path)
  fail_if (same_test (is_deleted kind) (is_some digest)) (invalid_digest_state path)
  ok (record { executable = false; path = path; digest = digest; kind = kind })

-- the order of bytes, which is that of `str` and of ids
unfoldable pub bytes_before : Bytes → Bytes → Bool
bytes_before [] [] = false
bytes_before [] (c ∷ cs) = true
bytes_before (b ∷ bs) [] = false
bytes_before (b ∷ bs) (c ∷ cs) = let rest = bytes_before bs cs in if b == c then rest else ltb b c

-- `sort_unstable_by` of a key; equal keys are refused behind it, so their order does not matter
unfoldable pub insert_by {ℓ} : {A : Type ℓ} → (A → Bytes) → A → List A → List A
insert_by key x [] = x ∷ []
insert_by key x (y ∷ ys) =
    let rest = insert_by key x ys in if bytes_before (key y) (key x) then y ∷ rest else x ∷ y ∷ ys

unfoldable pub sort_by {ℓ} : {A : Type ℓ} → (A → Bytes) → List A → List A
sort_by key [] = []
sort_by key (x ∷ xs) = insert_by key x (sort_by key xs)

abbrev pub bytes_eq : Bytes → Bytes → Bool
bytes_eq [] [] = true
bytes_eq (b ∷ bs) (c ∷ cs) = let rest = bytes_eq bs cs in if b == c then rest else false
bytes_eq _ _ = false

-- the first key that two neighbours share; in a sorted list, the first that is seen twice
unfoldable pub duplicate {ℓ} : {A : Type ℓ} → (A → Bytes) → List A → Option Bytes
duplicate key [] = none
duplicate key (x ∷ []) = none
duplicate key (x ∷ y ∷ ys) =
    let rest = duplicate key (y ∷ ys) in if bytes_eq (key x) (key y) then some (key x) else rest

abbrev pub path_of : CandidateFile → Bytes
path_of f = f.path

abbrev pub own_bytes : Bytes → Bytes
own_bytes bs = bs

abbrev refuse : (Bytes → CandidateError) → Option Bytes → Result (Unit {0}) CandidateError
refuse e none = ok tt
refuse e (some key) = err (e key)

-- `CandidateManifest::new`
unfoldable pub new_manifest :
    ℕ
    → Option Bytes
    → List CandidateFile
    → CandidateDigests
    → List Bytes
    → Result CandidateManifest CandidateError
new_manifest candidate_id base_revision files digests evidence_ids = do
  refuse duplicate_path (duplicate path_of (sort_by path_of files))
  refuse duplicate_evidence (duplicate own_bytes (sort_by own_bytes evidence_ids))
  ok (record {
    candidate_id = candidate_id;
    base_revision = base_revision;
    files = sort_by path_of files;
    digests = digests;
    delivery_payload_digest = none;
    evidence_ids = sort_by own_bytes evidence_ids;
  })

-- `CandidateManifestUnchecked` has the same fields
unfoldable pub try_from : CandidateManifest → Result CandidateManifest CandidateError
try_from m = do
  made ← new_manifest m.candidate_id m.base_revision m.files m.digests m.evidence_ids
  ok (record made { delivery_payload_digest = m.delivery_payload_digest })

-- the last `k` bytes of a number, the highest first
abbrev pub be_bytes : ℕ → ℕ → Bytes
be_bytes zero n = []
be_bytes (suc k) n = be_bytes k (n / 256) ++ n % 256 ∷ []

-- what `CanonicalHasher` hashes; a length is written as a u64
unfoldable pub write_u64 : ℕ → Bytes
write_u64 n = be_bytes 8 n

unfoldable pub write_bytes : Bytes → Bytes
write_bytes value = write_u64 (length value) ++ value

abbrev pub write_bool : Bool → Bytes
write_bool true = 1 ∷ []
write_bool false = 0 ∷ []

unfoldable pub write_optional : Option Bytes → Bytes
write_optional none = write_bool false
write_optional (some value) = write_bool true ++ write_bytes value

-- `added`, `deleted`, `generated`, `modified`
abbrev pub kind_name : CandidateFileKind → Bytes
kind_name added = b'a' ∷ b'd' ∷ b'd' ∷ b'e' ∷ b'd' ∷ []
kind_name deleted = b'd' ∷ b'e' ∷ b'l' ∷ b'e' ∷ b't' ∷ b'e' ∷ b'd' ∷ []
kind_name generated = b'g' ∷ b'e' ∷ b'n' ∷ b'e' ∷ b'r' ∷ b'a' ∷ b't' ∷ b'e' ∷ b'd' ∷ []
kind_name modified = b'm' ∷ b'o' ∷ b'd' ∷ b'i' ∷ b'f' ∷ b'i' ∷ b'e' ∷ b'd' ∷ []

-- calls of the hasher one after another, `last` behind them
abbrev pub write_onto : List Bytes → Bytes → Bytes
write_onto [] last = last
write_onto (part ∷ parts) last = part ++ write_onto parts last

-- one round of the loop over the files
unfoldable pub write_file : CandidateFile → Bytes
write_file f =
    write_onto (write_bytes f.path ∷ write_optional f.digest ∷ write_bytes (kind_name f.kind) ∷ [])
      []

unfoldable pub write_all {ℓ} : {A : Type ℓ} → (A → Bytes) → List A → Bytes
write_all write [] = []
write_all write (x ∷ xs) = write x ++ write_all write xs

abbrev pub write_delivery : Option Bytes → Bytes
write_delivery none = []
write_delivery (some digest) = write_bool true ++ write_bytes digest

-- what `CandidateManifest::digest` hashes behind the domain
unfoldable pub canonical_bytes : CandidateManifest → Bytes
canonical_bytes m =
    write_onto
      (write_optional m.base_revision
        ∷ write_u64 (length m.files)
        ∷ write_all write_file m.files
        ∷ write_bytes m.digests.diff
        ∷ write_bytes m.digests.dependency_state
        ∷ write_bytes m.digests.configuration
        ∷ write_bytes m.digests.environment
        ∷ write_u64 (length m.evidence_ids)
        ∷ write_all write_bytes m.evidence_ids
        ∷ [])
      (write_delivery m.delivery_payload_digest)
