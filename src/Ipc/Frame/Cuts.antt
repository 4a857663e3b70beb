-- ===== src/Ipc/Frame/Cuts.antt =====
-- Input that is cut into chunks (crates/workflow-ipc/src/frame.rs).
use mathlib.Core.List.{append-nil, append_assoc}
use opencode_cycle_plugin.Prelude.{
  ℕ, ◌+◌, ◌≡◌, refl, ◌∙◌, ap, subst, ◌⊎◌, inl, inr, Option, none, some, List, [], ◌∷◌, ◌++◌, Result,
  ok, err, arith, ◌==◌, length, Bool-cases, length-append, Result-cases,
}
use opencode_cycle_plugin.Ipc.Frame.{
  Frame, FrameError, DecodeState, header, payload, closed, new, Fed, announce, feed,
}
use opencode_cycle_plugin.Ipc.Frame.Bytes.{IsOpen, push, push_all}
use opencode_cycle_plugin.Ipc.Frame.Stream.{announce-IsOpen, feed-eq_push_all}

unfoldable pub concat : List (List ℕ) → List ℕ
concat [] = []
concat (chunk ∷ chunks) = chunk ++ concat chunks

-- the decoder, the frames that the reader has, and the error that ended the input
abbrev pub Received : Type 0 → Type 0
Received E = DecodeState × List Frame × Result (Unit {0}) (FrameError E)

module _ {E : Type 0} where
  -- A reader feeds one chunk after another, up to the first error. It keeps the frames that the calls
  -- before have returned; the call with the error returns none.
  unfoldable pub feed_chunks : DecodeState → List (List ℕ) → List Frame → Option (Received E)
  feed_chunks s [] frames = some (s, frames, ok tt)
  feed_chunks s (chunk ∷ chunks) frames = elim (feed s chunk) [
    | none ↦ none
    | some (s', err e) ↦ some (s', frames, err e)
    | some (s', ok more) ↦ feed_chunks s' chunks (frames ++ more)
  ]

  abbrev prepend : List Frame → Fed E → Fed E
  prepend frames (s, err e) = (s, err e)
  prepend frames (s, ok more) = (s, ok (frames ++ more))

  push-IsOpen :
      (s : DecodeState) (b : ℕ) (s' : DecodeState) (frames : List Frame)
      → IsOpen s
      → push {E = E} s b ≡ ok (s', frames)
      → IsOpen s'
  unfolding push
  push-IsOpen (header bytes) b s' frames ready e = elim (Bool-cases (length bytes + 1 == 4)) [
    | inr short ↦
        let size = length-append bytes (b ∷ []) in
        let same : header (bytes ++ b ∷ []) ≡ s' = ground arith in subst IsOpen same (ground arith)
    | inl full ↦ elim (Result-cases (announce {E = E} (bytes ++ b ∷ []))) [
      | inr (x, a) ↦ ground arith
      | inl (next, a) ↦
          let same : next ≡ s' = ground arith in
          subst IsOpen same (announce-IsOpen (bytes ++ b ∷ []) next a)
    ]
  ]
  push-IsOpen (payload bytes n) b s' frames ready e = elim (Bool-cases (length bytes + 1 == n)) [
    | inr short ↦
        let size = length-append bytes (b ∷ []) in
        let same : payload (bytes ++ b ∷ []) n ≡ s' = ground arith in
        let less = ready.0 in subst IsOpen same (ground arith, ready.1)
    | inl full ↦ let same : new ≡ s' = ground arith in subst IsOpen same (omega arith)
  ]
  push-IsOpen closed b s' frames ready e = ground arith

  push_all-prepend :
      (s : DecodeState) (bytes : List ℕ) (before frames : List Frame)
      → push_all {E = E} s bytes (before ++ frames) ≡ prepend before (push_all s bytes frames)
  unfolding push_all
  push_all-prepend s [] before frames = refl
  push_all-prepend s (b ∷ bytes) before frames = elim (Result-cases (push {E = E} s b)) [
    | inr (x, e) ↦ ground arith
    | inl ((s', more), e) ↦
        let rest = push_all-prepend s' bytes before (frames ++ more) in
        let same = append_assoc before frames more in ground arith
  ]

  abbrev onward : List ℕ → Fed E → Fed E
  onward ys (s, err e) = (s, err e)
  onward ys (s, ok frames) = push_all s ys frames

  -- a run of bytes that succeeds, and the bytes after it
  push_all-append :
      (s : DecodeState) (xs ys : List ℕ) (frames : List Frame)
      → push_all {E = E} s (xs ++ ys) frames ≡ onward ys (push_all s xs frames)
  unfolding push_all
  push_all-append s [] ys frames = refl
  push_all-append s (b ∷ xs) ys frames = elim (Result-cases (push {E = E} s b)) [
    | inr (x, e) ↦ ground arith
    | inl ((s', more), e) ↦ let rest = push_all-append s' xs ys (frames ++ more) in ground arith
  ]

  push_all-IsOpen :
      (s : DecodeState) (bytes : List ℕ) (frames : List Frame) (s' : DecodeState)
      (more : List Frame)
      → IsOpen s
      → push_all {E = E} s bytes frames ≡ (s', ok more)
      → IsOpen s'
  unfolding push_all
  push_all-IsOpen s [] frames s' more ready e =
      let same : s ≡ s' = ground arith in subst IsOpen same ready
  push_all-IsOpen s (b ∷ bytes) frames s' more ready e = elim (Result-cases (push {E = E} s b)) [
    | inr (x, refused) ↦ ground arith
    | inl ((next, out), pushed) ↦
        push_all-IsOpen next bytes (frames ++ out) s' more (push-IsOpen s b next out ready pushed)
          (ground arith)
  ]

  Fed-cases :
      (f : Fed E)
      → ((s : DecodeState) × (e : FrameError E) × (f ≡ (s, err e)))
        ⊎ ((s : DecodeState) × (frames : List Frame) × (f ≡ (s, ok frames)))
  Fed-cases (s, err e) = inl (s, e, refl)
  Fed-cases (s, ok frames) = inr (s, frames, refl)

  push_all-closed :
      (s : DecodeState) (bytes : List ℕ) (frames : List Frame) (s' : DecodeState) (e : FrameError E)
      → push_all s bytes frames ≡ (s', err e)
      → s' ≡ closed
  unfolding push_all
  push_all-closed s [] frames s' e h = ground arith
  push_all-closed s (b ∷ bytes) frames s' e h = elim (Result-cases (push {E = E} s b)) [
    | inr (x, refused) ↦ ground arith
    | inl ((next, out), pushed) ↦ push_all-closed next bytes (frames ++ out) s' e (ground arith)
  ]

  -- the bytes behind a chunk that is not refused
  push_all-chunk :
      (s : DecodeState) (chunk ys : List ℕ) (frames : List Frame) (s' : DecodeState)
      (more : List Frame)
      → push_all {E = E} s chunk [] ≡ (s', ok more)
      → push_all {E = E} s (chunk ++ ys) frames ≡ push_all s' ys (frames ++ more)
  push_all-chunk s chunk ys frames s' more h =
      let whole = push_all-append s chunk ys frames in
      let before = push_all-prepend s chunk frames [] in
      let same = append-nil frames in ground arith

  push_all-refused :
      (s : DecodeState) (chunk ys : List ℕ) (frames : List Frame) (s' : DecodeState)
      (e : FrameError E)
      → push_all s chunk [] ≡ (s', err e)
      → push_all s (chunk ++ ys) frames ≡ (s', err e)
  push_all-refused s chunk ys frames s' e h =
      let whole = push_all-append s chunk ys frames in
      let before = push_all-prepend s chunk frames [] in
      let same = append-nil frames in ground arith

  -- What the bytes do one after another, with the frames that the reader has before: without an
  -- error, all of it; with one, the same error, and the frames of the chunks before the one in which
  -- it arises.
  abbrev pub IsOutcome : DecodeState → List (List ℕ) → List Frame → Received E → Type 0
  IsOutcome s chunks frames (s', received, ok _) =
      push_all {E = E} s (concat chunks) frames ≡ (s', ok received)
  IsOutcome s chunks frames (s', received, err e) =
      (push_all s (concat chunks) frames ≡ (closed, err e))
      × (s' ≡ closed)
      × (before : List (List ℕ)) × (chunk : List ℕ) × (after : List (List ℕ)) × (t : DecodeState)
      × (chunks ≡ before ++ chunk ∷ after)
      × (push_all {E = E} s (concat before) frames ≡ (t, ok received))
      × (push_all t chunk [] ≡ (closed, err e))

  cons-IsOutcome :
      (s : DecodeState) (chunk : List ℕ) (chunks : List (List ℕ)) (frames : List Frame)
      (s' : DecodeState) (more : List Frame) (r : Received E)
      → push_all {E = E} s chunk [] ≡ (s', ok more)
      → IsOutcome s' chunks (frames ++ more) r
      → IsOutcome s (chunk ∷ chunks) frames r
  unfolding concat
  cons-IsOutcome s chunk chunks frames s' more (t, received, ok _) run h =
      push_all-chunk s chunk (concat chunks) frames s' more run ∙ h
  cons-IsOutcome s chunk chunks frames s' more (t, received, err e) run h =
      let (whole, shut, before, last, after, at, split, fed, refused) = h in
      (
        push_all-chunk s chunk (concat chunks) frames s' more run ∙ whole,
        shut,
        chunk ∷ before,
        last,
        after,
        at,
        ap (λ xs. chunk ∷ xs) split,
        push_all-chunk s chunk (concat before) frames s' more run ∙ fed,
        refused,
      )

  -- Every `feed` of a chunked input returns. Without an error, the decoder and the frames are those
  -- of the bytes one after another, so that they do not depend on the cut. With an error, the error
  -- does not depend on the cut either, and the decoder is closed; the reader has the frames of the
  -- chunks before the one in which the error arises, and none of that one.
  pub feed_chunks-IsOutcome :
      (s : DecodeState) (chunks : List (List ℕ)) (frames : List Frame)
      → IsOpen s
      → (r : Received E) × (feed_chunks s chunks frames ≡ some r) × IsOutcome s chunks frames r
  unfolding feed_chunks concat push_all
  feed_chunks-IsOutcome s [] frames ready = ((s, frames, ok tt), refl, refl)
  feed_chunks-IsOutcome s (chunk ∷ chunks) frames ready =
      let fed = feed-eq_push_all {E = E} s chunk ready in
      elim (Fed-cases (push_all s chunk [])) [
        | inl (s', e, run) ↦
            let shut = push_all-closed s chunk [] s' e run in
            let whole = push_all-refused s chunk (concat chunks) frames s' e run in
            (
              (s', frames, err e),
              ground arith,
              (ground arith, shut, [], chunk, chunks, s, refl, refl, ground arith),
            )
        | inr (s', more, run) ↦
            let open_after = push_all-IsOpen s chunk [] s' more ready run in
            let (r, rest, outcome) = feed_chunks-IsOutcome s' chunks (frames ++ more) open_after in
            (r, ground arith, cons-IsOutcome s chunk chunks frames s' more r run outcome)
      ]
