-- ===== src/Core/Candidate/Examples.antt =====
-- Two manifests that differ in their ids and in an executable flag.
use opencode_cycle_plugin.Prelude.{ℕ, ◌≡◌, refl, true, false, some, none, [], ◌∷◌, ok, err, arith}
use opencode_cycle_plugin.Core.Path.{is_safe_relative}
use opencode_cycle_plugin.Core.Candidate.{
  CandidateFile, CandidateManifest, CandidateDigests, added, deleted, duplicate_path,
  invalid_digest_state, new_file, new_manifest, try_from, bytes_before, insert_by, sort_by,
  duplicate, canonical_bytes, write_file, write_all, write_bytes, write_u64, write_optional,
}
use opencode_cycle_plugin.Core.Candidate.Canonical.{
  IsSized, IsSameContent, canonical_bytes-IsSameContent,
}

abbrev file : ℕ → CandidateFile
file name = record { executable = false; path = name ∷ []; digest = some (7 ∷ []); kind = added }

abbrev digests : CandidateDigests
digests = record {
  configuration = 1 ∷ [];
  dependency_state = 2 ∷ [];
  diff = 3 ∷ [];
  environment = 4 ∷ [];
}

abbrev manifest : ℕ → CandidateFile → CandidateManifest
manifest id f = record {
  candidate_id = id;
  base_revision = none;
  files = f ∷ [];
  digests = digests;
  delivery_payload_digest = none;
  evidence_ids = (9 ∷ []) ∷ [];
}

-- files are sorted, and a path is given once
sorted :
    new_manifest 1 none (file b'b' ∷ file b'a' ∷ []) digests []
    ≡ ok (record (manifest 1 (file b'a')) { files = file b'a' ∷ file b'b' ∷ []; evidence_ids = [] })
unfolding new_manifest sort_by insert_by bytes_before duplicate
sorted = refl

twice :
    new_manifest 1 none (file b'b' ∷ file b'b' ∷ []) digests [] ≡ err (duplicate_path (b'b' ∷ []))
unfolding new_manifest sort_by insert_by bytes_before duplicate
twice = refl

deleted_with_digest :
    new_file (b'a' ∷ []) (some (7 ∷ [])) deleted ≡ err (invalid_digest_state (b'a' ∷ []))
unfolding new_file is_safe_relative
deleted_with_digest = refl

read_again : try_from (manifest 1 (file b'a')) ≡ ok (manifest 1 (file b'a'))
unfolding try_from new_manifest sort_by insert_by bytes_before duplicate
read_again = refl

abbrev script : CandidateFile
script = record (file b'a') { executable = true }

small :
    (id : ℕ) (f : CandidateFile)
    → f.path ≡ b'a' ∷ []
    → f.digest ≡ some (7 ∷ [])
    → IsSized (manifest id f)
small id f path digest = record {
  base = tt;
  file_count = omega arith;
  file_sizes = ((rw path (omega arith), rw digest (omega arith)), tt);
  diff = omega arith;
  dependency_state = omega arith;
  configuration = omega arith;
  environment = omega arith;
  evidence_count = omega arith;
  evidence_sizes = (omega arith, tt);
  delivery = tt;
}

same_bytes : canonical_bytes (manifest 1 (file b'a')) ≡ canonical_bytes (manifest 2 script)
unfolding canonical_bytes write_file write_all write_bytes write_u64 write_optional
same_bytes = refl

canonical_bytes-IsSameContent_example : IsSameContent (manifest 1 (file b'a')) (manifest 2 script)
canonical_bytes-IsSameContent_example =
    canonical_bytes-IsSameContent (manifest 1 (file b'a')) (manifest 2 script)
      (small 1 (file b'a') refl refl) (small 2 script refl refl) same_bytes
