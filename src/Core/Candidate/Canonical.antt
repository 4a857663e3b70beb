-- ===== src/Core/Candidate/Canonical.antt =====
-- What the digest of a candidate determines, crates/workflow-core/src/candidate.rs.
use opencode_cycle_plugin.Prelude.{
  ◌<◌, false, Option, none, some, List, [], ◌∷◌, ◌++◌, ◌≡◌, refl, sym, ap, ◌∙◌, arith, length, All,
  map,
}
use mathlib.Core.List.{append_assoc}
use opencode_cycle_plugin.Core.Candidate.{
  Bytes, CandidateFile, CandidateFileKind, CandidateManifest, CandidateDigests, added, deleted,
  generated, modified, kind_name, write_file, write_bytes, write_optional, write_delivery,
  canonical_bytes, write_onto,
}
use opencode_cycle_plugin.Core.Candidate.Prefix.{
  IsCodeOf, Sized, OptSized, write_u64-IsCode, write_bytes-IsCode, write_optional-IsCode,
  write_all-IsCode,
}

kind_name_inj : (k l : CandidateFileKind) → kind_name k ≡ kind_name l → k ≡ l
kind_name_inj added added e = refl
kind_name_inj deleted deleted e = refl
kind_name_inj generated generated e = refl
kind_name_inj modified modified e = refl
kind_name_inj _ _ e = absurd (ground (arith, e))

kind_name-Sized : (k : CandidateFileKind) → Sized (kind_name k)
kind_name-Sized added = omega arith
kind_name-Sized deleted = omega arith
kind_name-Sized generated = omega arith
kind_name-Sized modified = omega arith

-- a file without the flag that the digest leaves out
abbrev pub hashed_file : CandidateFile → CandidateFile
hashed_file f = record f { executable = false }

abbrev pub FileSized : CandidateFile → Type 0
FileSized f = Sized f.path × OptSized f.digest

same_file :
    (f g : CandidateFile)
    → f.path ≡ g.path
    → f.digest ≡ g.digest
    → f.kind ≡ g.kind
    → hashed_file f ≡ hashed_file g
same_file f g a b c = rw (a, b, c) refl

write_onto_append :
    (parts : List Bytes) (last xs : Bytes)
    → write_onto parts last ++ xs ≡ write_onto parts (last ++ xs)
write_onto_append [] last xs = refl
write_onto_append (part ∷ parts) last xs =
    append_assoc part (write_onto parts last) xs
    ∙ ap (λ rest. part ++ rest) (write_onto_append parts last xs)

write_file-IsCode : IsCodeOf hashed_file FileSized write_file
unfolding write_file
write_file-IsCode f g xs ys p q e =
    let (path, e1) = write_bytes-IsCode f.path g.path _ _ p.0 q.0 (
      sym (
        write_onto_append
          (write_bytes f.path ∷ write_optional f.digest ∷ write_bytes (kind_name f.kind) ∷ []) []
          xs)
      ∙ e
      ∙ write_onto_append
          (write_bytes g.path ∷ write_optional g.digest ∷ write_bytes (kind_name g.kind) ∷ []) []
          ys) in
    let (digest, e2) = write_optional-IsCode f.digest g.digest _ _ p.1 q.1 e1 in
    let (kind, e3) =
      write_bytes-IsCode (kind_name f.kind) (kind_name g.kind) xs ys (kind_name-Sized f.kind)
        (kind_name-Sized g.kind) e2 in
    (same_file f g path digest (kind_name_inj f.kind g.kind kind), e3)

-- every length of a manifest is below 2 ^ 64, as it is in the memory of a machine
pub record IsSized (m : CandidateManifest) : Type 0 where
  pub base : OptSized m.base_revision
  pub file_count : length m.files < 18446744073709551616
  pub file_sizes : All FileSized m.files
  pub diff : Sized m.digests.diff
  pub dependency_state : Sized m.digests.dependency_state
  pub configuration : Sized m.digests.configuration
  pub environment : Sized m.digests.environment
  pub evidence_count : length m.evidence_ids < 18446744073709551616
  pub evidence_sizes : All Sized m.evidence_ids
  pub delivery : OptSized m.delivery_payload_digest

write_delivery_inj :
    (a b : Option Bytes) → OptSized a → OptSized b → write_delivery a ≡ write_delivery b → a ≡ b
write_delivery_inj none none f g e = refl
write_delivery_inj none (some b) f g e = absurd (ground (arith, e))
write_delivery_inj (some a) none f g e = absurd (ground (arith, e))
write_delivery_inj (some a) (some b) f g e =
    let inner : write_bytes a ≡ write_bytes b = ground (arith, e) in
    ap some (write_bytes-IsCode a b [] [] f g (ap (λ bs. bs ++ []) inner)).0

-- what two manifests with the same digest have in common
pub record IsSameContent (m n : CandidateManifest) : Type 0 where
  pub base : m.base_revision ≡ n.base_revision
  pub files : map hashed_file m.files ≡ map hashed_file n.files
  pub digests : m.digests ≡ n.digests
  pub evidence : m.evidence_ids ≡ n.evidence_ids
  pub delivery : m.delivery_payload_digest ≡ n.delivery_payload_digest

map_id : (xs : List Bytes) → map (λ x. x) xs ≡ xs
map_id [] = refl
map_id (x ∷ xs) = ap (λ ys. x ∷ ys) (map_id xs)

same_digests :
    (a b : CandidateDigests)
    → a.diff ≡ b.diff
    → a.dependency_state ≡ b.dependency_state
    → a.configuration ≡ b.configuration
    → a.environment ≡ b.environment
    → a ≡ b
same_digests a b d s c e = rw (d, s, c, e) refl

-- The bytes that the digest hashes determine the manifest, except its id and the executable flags of
-- its files: if no length reaches 2 ^ 64, manifests with the same bytes agree in the base revision,
-- in the files with their paths, digests and kinds and their order, in the four digests, in the
-- evidence, and in the digest of the payload.
pub canonical_bytes-IsSameContent :
    (m n : CandidateManifest)
    → IsSized m
    → IsSized n
    → canonical_bytes m ≡ canonical_bytes n
    → IsSameContent m n
unfolding canonical_bytes
canonical_bytes-IsSameContent m n s t e =
    let (base, e1) = write_optional-IsCode m.base_revision n.base_revision _ _ s.base t.base e in
    let (count, e2) =
      write_u64-IsCode (length m.files) (length n.files) _ _ s.file_count t.file_count e1 in
    let (files, e3) =
      write_all-IsCode hashed_file FileSized write_file write_file-IsCode m.files n.files _ _ count
        s.file_sizes t.file_sizes e2 in
    let (diff, e4) = write_bytes-IsCode m.digests.diff n.digests.diff _ _ s.diff t.diff e3 in
    let (dependency_state, e5) =
      write_bytes-IsCode m.digests.dependency_state n.digests.dependency_state _ _
        s.dependency_state t.dependency_state e4 in
    let (configuration, e6) =
      write_bytes-IsCode m.digests.configuration n.digests.configuration _ _ s.configuration
        t.configuration e5 in
    let (environment, e7) =
      write_bytes-IsCode m.digests.environment n.digests.environment _ _ s.environment t.environment
        e6 in
    let (evidence_count, e8) =
      write_u64-IsCode (length m.evidence_ids) (length n.evidence_ids) _ _ s.evidence_count
        t.evidence_count e7 in
    let (evidence, e9) =
      write_all-IsCode (λ x. x) Sized write_bytes write_bytes-IsCode m.evidence_ids n.evidence_ids _
        _ evidence_count s.evidence_sizes t.evidence_sizes e8 in
    record {
      base = base;
      files = files;
      digests = same_digests m.digests n.digests diff dependency_state configuration environment;
      evidence = sym (map_id m.evidence_ids) ∙ evidence ∙ map_id n.evidence_ids;
      delivery =
          write_delivery_inj m.delivery_payload_digest n.delivery_payload_digest s.delivery
            t.delivery e9;
    }
