-- ===== src/Ipc/Frame/Chunks.antt =====
-- Frames through chunks of any size (crates/workflow-ipc/src/frame.rs).
use mathlib.Core.List.{append-nil, append_assoc}
use opencode_cycle_plugin.Prelude.{
  ℕ, ◌≤◌, ◌<◌, ◌≡◌, refl, ◌∙◌, ap, inl, inr, true, some, List, [], ◌∷◌, ◌++◌, Result, ok, err,
  arith, ltb, ◌==◌, length, Bool-cases, Result-cases, ◌>>=◌, ◌/◌, ◌%◌,
}
use opencode_cycle_plugin.Ipc.Frame.{
  Frame, FrameError, max_frame_bytes, payload, new, announce, encode_frame, to_be_bytes,
  from_be_bytes, decode_frames,
}
use opencode_cycle_plugin.Ipc.Frame.Bytes.{push_all, push_all-header, push_all-payload}
use opencode_cycle_plugin.Ipc.Frame.Cuts.{
  concat, Received, feed_chunks, IsOutcome, feed_chunks-IsOutcome,
}

from_be_bytes-to_be_bytes : (n : ℕ) → n < 4294967296 → from_be_bytes (to_be_bytes n) ≡ n
unfolding from_be_bytes to_be_bytes
from_be_bytes-to_be_bytes n h = omega arith

module _ {E : Type 0} where
  announce-to_be_bytes :
      (n : ℕ) → 0 < n → n ≤ max_frame_bytes → announce {E = E} (to_be_bytes n) ≡ ok (payload [] n)
  unfolding announce
  announce-to_be_bytes n pos bound =
      let same = from_be_bytes-to_be_bytes n (omega arith) in ground arith

  -- the header and the payload of one frame
  push_all-frame :
      (b : ℕ) (frame rest : List ℕ) (frames : List Frame)
      → length (b ∷ frame) ≤ max_frame_bytes
      → push_all {E = E} new (to_be_bytes (length (b ∷ frame)) ++ ((b ∷ frame) ++ rest)) frames
        ≡ push_all new rest (frames ++ (b ∷ frame) ∷ [])
  unfolding to_be_bytes
  push_all-frame b frame rest frames bound =
      let n = length (b ∷ frame) in
      let announced = announce-to_be_bytes n (omega arith) bound in
      let head =
        push_all-header {E = E} [] (n / 16777216 % 256)
          (n / 65536 % 256 ∷ n / 256 % 256 ∷ n % 256 ∷ []) ((b ∷ frame) ++ rest) frames
          (omega arith) in
      let body = push_all-payload {E = E} [] n b frame rest frames (omega arith) in
      let full : (n == n) ≡ true = ground arith in head ∙ (rw announced (rw full at body))

  encode_frame-inv :
      {T : Type 0} (serialize : T → Result Frame E) (value : T) (bytes : List ℕ)
      → encode_frame serialize value ≡ ok bytes
      → (b : ℕ) × (frame : List ℕ) × (serialize value ≡ ok (b ∷ frame))
        × (length (b ∷ frame) ≤ max_frame_bytes)
        × (bytes ≡ to_be_bytes (length (b ∷ frame)) ++ b ∷ frame)
  unfolding encode_frame
  encode_frame-inv serialize value bytes h = elim (Result-cases (serialize value)) [
    | inr (x, e) ↦ ground arith
    | inl ([], e) ↦ ground arith
    | inl (b ∷ frame, e) ↦ elim (Bool-cases (ltb max_frame_bytes (length (b ∷ frame)))) [
      | inl over ↦ ground arith
      | inr fits ↦ (b, frame, e, ground arith, ground arith)
    ]
  ]

  -- the frames of a list of values, one after another
  unfoldable pub encode_all :
      {T : Type 0} → (T → Result Frame E) → List T → Result (List ℕ) (FrameError E)
  encode_all serialize [] = ok []
  encode_all serialize (value ∷ values) = encode_frame serialize value >>= λ frame.
      encode_all serialize values >>= λ frames. ok (frame ++ frames)

  push_all-encode_all :
      {T : Type 0} (serialize : T → Result Frame E) (deserialize : Frame → Result T E)
      → ((value : T) (frame : Frame) → serialize value ≡ ok frame → deserialize frame ≡ ok value)
      → (values : List T) (bytes : List ℕ) (before : List Frame)
      → encode_all serialize values ≡ ok bytes
      → (frames : List Frame) × (push_all {E = E} new bytes before ≡ (new, ok (before ++ frames)))
        × (decode_frames deserialize frames ≡ ok values)
  unfolding encode_all push_all decode_frames
  push_all-encode_all serialize deserialize inverse [] bytes before h =
      let same = append-nil before in ([], ground arith, refl)
  push_all-encode_all serialize deserialize inverse (value ∷ values) bytes before h =
      elim (Result-cases (encode_frame serialize value)) [
        | inr (x, e) ↦ ground arith
        | inl (first, e) ↦ elim (Result-cases (encode_all serialize values)) [
          | inr (x, e') ↦ ground arith
          | inl (others, e') ↦
              let (b, frame, written, bound, layout) = encode_frame-inv serialize value first e in
              let read = inverse value (b ∷ frame) written in
              let (frames, run, decoded) =
                push_all-encode_all serialize deserialize inverse values others
                  (before ++ (b ∷ frame) ∷ []) e' in
              let step = push_all-frame b frame others before bound in
              let glue = append_assoc before ((b ∷ frame) ∷ []) frames in
              let cut = append_assoc (to_be_bytes (length (b ∷ frame))) (b ∷ frame) others in
              let whole : bytes ≡ first ++ others = ground arith in
              let same : bytes ≡ to_be_bytes (length (b ∷ frame)) ++ ((b ∷ frame) ++ others) =
                whole ∙ ap (λ w. w ++ others) layout ∙ cut in
              let received =
                ap (λ w. push_all {E = E} new w before) same
                ∙ step
                ∙ run
                ∙ ap (λ w. (new, ok w)) glue in
              ((b ∷ frame) ∷ frames, received, ground arith)
        ]
      ]

  IsOutcome-ok :
      (chunks : List (List ℕ)) (frames : List Frame) (r : Received E)
      → push_all {E = E} new (concat chunks) [] ≡ (new, ok frames)
      → IsOutcome new chunks [] r
      → r ≡ (new, frames, ok tt)
  IsOutcome-ok chunks frames (s, received, ok _) run h = ground arith
  IsOutcome-ok chunks frames (s, received, err e) run h = let refused = h.0 in absurd (ground arith)

  -- Round trip: values that encode, sent as one stream and received in chunks of any size, are
  -- decoded to themselves, in order, and the decoder is empty again; provided that `deserialize`
  -- inverts `serialize`.
  pub feed_chunks-encode_all :
      {T : Type 0} (serialize : T → Result Frame E) (deserialize : Frame → Result T E)
      → ((value : T) (frame : Frame) → serialize value ≡ ok frame → deserialize frame ≡ ok value)
      → (values : List T) (bytes : List ℕ) (chunks : List (List ℕ))
      → encode_all serialize values ≡ ok bytes
      → concat chunks ≡ bytes
      → (frames : List Frame) × (feed_chunks {E = E} new chunks [] ≡ some (new, frames, ok tt))
        × (decode_frames deserialize frames ≡ ok values)
  feed_chunks-encode_all serialize deserialize inverse values bytes chunks encoded cut =
      let (frames, run, decoded) =
        push_all-encode_all serialize deserialize inverse values bytes [] encoded in
      let (r, received, outcome) = feed_chunks-IsOutcome new chunks [] (omega arith) in
      let same = IsOutcome-ok chunks frames r (rw (cut, run)) outcome in
      (frames, received ∙ ap some same, decoded)
