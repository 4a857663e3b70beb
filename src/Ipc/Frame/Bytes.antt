-- ===== src/Ipc/Frame/Bytes.antt =====
-- The decoder byte by byte: what `feed` does to a chunk is what its bytes do one after another
-- (crates/workflow-ipc/src/frame.rs).
use mathlib.Core.List.{append-nil, append_assoc}
use opencode_cycle_plugin.Prelude.{
  ℕ, ◌+◌, ◌≤◌, ◌<◌, ◌≡◌, ◌∙◌, inl, inr, false, List, [], ◌∷◌, ◌++◌, Result, ok, err, arith, ◌==◌,
  if◌then◌else◌, length, Bool-cases, length-append, Result-cases,
}
use opencode_cycle_plugin.Ipc.Frame.{
  Frame, FrameError, max_frame_bytes, poisoned, DecodeState, header, payload, closed, new, Fed,
  announce,
}

-- the states between two rounds: a header is short of four bytes, a payload short of its length
abbrev pub IsOpen : DecodeState → Type 0
IsOpen (header bytes) = length bytes < 4
IsOpen (payload bytes n) = (length bytes < n) × (n ≤ max_frame_bytes)
IsOpen closed = Unit

module _ {E : Type 0} where
  -- The reference: every byte either is refused, which closes the decoder, or is stored, and may
  -- complete a frame.
  unfoldable pub push : DecodeState → ℕ → Result (DecodeState × List Frame) (FrameError E)
  push (header bytes) b =
      if length bytes + 1 == 4
      then (elim (announce (bytes ++ b ∷ [])) [ err e ↦ err e | ok s ↦ ok (s, []) ])
      else ok (header (bytes ++ b ∷ []), [])
  push (payload bytes n) b =
      if length bytes + 1 == n
      then ok (new, (bytes ++ b ∷ []) ∷ [])
      else ok (payload (bytes ++ b ∷ []) n, [])
  push closed b = err poisoned

  unfoldable pub push_all : DecodeState → List ℕ → List Frame → Fed E
  push_all s [] frames = (s, ok frames)
  push_all s (b ∷ bs) frames = elim (push s b) [
    | err e ↦ (closed, err e)
    | ok (s', more) ↦ push_all s' bs (frames ++ more)
  ]

  abbrev pub after_header : Result DecodeState (FrameError E) → List ℕ → List Frame → Fed E
  after_header (err e) rest frames = (closed, err e)
  after_header (ok s) rest frames = push_all s rest frames

  abbrev pub header_done : List ℕ → List ℕ → List Frame → Fed E
  header_done bytes rest frames =
      if length bytes == 4
      then after_header (announce bytes) rest frames
      else push_all (header bytes) rest frames

  abbrev pub payload_done : List ℕ → ℕ → List ℕ → List Frame → Fed E
  payload_done bytes n rest frames =
      if length bytes == n
      then push_all new rest (frames ++ bytes ∷ [])
      else push_all (payload bytes n) rest frames

  header_byte :
      (bytes : List ℕ) (b : ℕ) (rest : List ℕ) (frames : List Frame)
      → push_all (header bytes) (b ∷ rest) frames ≡ header_done (bytes ++ b ∷ []) rest frames
  unfolding push_all push
  header_byte bytes b rest frames =
      let size = length-append bytes (b ∷ []) in
      let same = append-nil frames in
      elim (Bool-cases (length bytes + 1 == 4)) [
        | inr short ↦ ground arith
        | inl full ↦ elim (Result-cases (announce {E = E} (bytes ++ b ∷ []))) [
          | inl (s, e) ↦ ground arith
          | inr (x, e) ↦ ground arith
        ]
      ]

  payload_byte :
      (bytes : List ℕ) (n b : ℕ) (rest : List ℕ) (frames : List Frame)
      → push_all (payload bytes n) (b ∷ rest) frames ≡ payload_done (bytes ++ b ∷ []) n rest frames
  unfolding push_all push
  payload_byte bytes n b rest frames =
      let size = length-append bytes (b ∷ []) in
      let same = append-nil frames in
      elim (Bool-cases (length bytes + 1 == n)) [
        | inr short ↦ ground arith
        | inl full ↦ ground arith
      ]

  -- a chunk that a header has room for
  pub push_all-header :
      (bytes : List ℕ) (b : ℕ) (chunk rest : List ℕ) (frames : List Frame)
      → length bytes + length (b ∷ chunk) ≤ 4
      → push_all (header bytes) ((b ∷ chunk) ++ rest) frames
        ≡ header_done (bytes ++ b ∷ chunk) rest frames
  push_all-header bytes b [] rest frames h = header_byte bytes b rest frames
  push_all-header bytes b (c ∷ chunk) rest frames h =
      let short : (length (bytes ++ b ∷ []) == 4) ≡ false =
        ground (arith, length-append bytes (b ∷ [])) in
      let more =
        push_all-header (bytes ++ b ∷ []) c chunk rest frames
          (omega (arith, length-append bytes (b ∷ []))) in
      header_byte bytes b (c ∷ (chunk ++ rest)) frames ∙ rw short (rw append_assoc at more)

  -- a chunk that a payload has room for
  pub push_all-payload :
      (bytes : List ℕ) (n b : ℕ) (chunk rest : List ℕ) (frames : List Frame)
      → length bytes + length (b ∷ chunk) ≤ n
      → push_all (payload bytes n) ((b ∷ chunk) ++ rest) frames
        ≡ payload_done (bytes ++ b ∷ chunk) n rest frames
  push_all-payload bytes n b [] rest frames h = payload_byte bytes n b rest frames
  push_all-payload bytes n b (c ∷ chunk) rest frames h =
      let short : (length (bytes ++ b ∷ []) == n) ≡ false =
        ground (arith, length-append bytes (b ∷ [])) in
      let more =
        push_all-payload (bytes ++ b ∷ []) n c chunk rest frames
          (omega (arith, length-append bytes (b ∷ []))) in
      payload_byte bytes n b (c ∷ (chunk ++ rest)) frames ∙ rw short (rw append_assoc at more)
