-- ===== src/Ipc/Frame/Stream.antt =====
-- `feed` against the decoder byte by byte (crates/workflow-ipc/src/frame.rs).
use opencode_cycle_plugin.Prelude.{
  ℕ, zero, suc, ◌+◌, ◌-◌, ◌≤◌, ◌<◌, ◌≡◌, inl, inr, min, some, List, [], ◌∷◌, ◌++◌, ok, arith, ◌==◌,
  length, take, drop, Bool-cases, length-append, take-append-drop, length-take, length-drop,
  Result-cases,
}
use opencode_cycle_plugin.Ipc.Frame.{
  Frame, DecodeState, header, payload, closed, new, announce, feed_loop, feed,
}
use opencode_cycle_plugin.Ipc.Frame.Bytes.{
  IsOpen, push, push_all, header_done, payload_done, push_all-header, push_all-payload,
}

module _ {E : Type 0} where
  pub announce-IsOpen :
      (bytes : List ℕ) (s : DecodeState) → announce {E = E} bytes ≡ ok s → IsOpen s
  unfolding announce
  announce-IsOpen bytes (header bytes') = ground arith
  announce-IsOpen bytes (payload bytes' n) = ground arith
  announce-IsOpen bytes closed = ground arith

  push_all-take_header :
      (bytes : List ℕ) (b : ℕ) (input : List ℕ) (k : ℕ) (frames : List Frame)
      → 0 < k
      → length bytes + k ≤ 4
      → push_all {E = E} (header bytes) (b ∷ input) frames
        ≡ header_done (bytes ++ take k (b ∷ input)) (drop k (b ∷ input)) frames
  push_all-take_header bytes b input zero frames pos h = ground arith
  push_all-take_header bytes b input (suc k) frames pos h =
      let fits = length-take k input in
      rw take-append-drop at
        (push_all-header {E = E} bytes b (take k input) (drop k input) frames (ground arith))

  push_all-take_payload :
      (bytes : List ℕ) (n b : ℕ) (input : List ℕ) (k : ℕ) (frames : List Frame)
      → 0 < k
      → length bytes + k ≤ n
      → push_all {E = E} (payload bytes n) (b ∷ input) frames
        ≡ payload_done (bytes ++ take k (b ∷ input)) n (drop k (b ∷ input)) frames
  push_all-take_payload bytes n b input zero frames pos h = ground arith
  push_all-take_payload bytes n b input (suc k) frames pos h =
      let fits = length-take k input in
      rw take-append-drop at
        (push_all-payload {E = E} bytes n b (take k input) (drop k input) frames (ground arith))

  feed_loop-eq :
      (fuel : ℕ) (s : DecodeState) (input : List ℕ) (frames : List Frame)
      → IsOpen s
      → length input < fuel
      → feed_loop {E = E} fuel s input frames ≡ some (push_all s input frames)
  unfolding feed_loop push_all push
  feed_loop-eq zero s input frames ready h = ground arith
  feed_loop-eq (suc fuel) s [] frames ready h = ground arith
  feed_loop-eq (suc fuel) (header bytes) (b ∷ input) frames ready h =
      let k = min (4 - length bytes) (length (b ∷ input)) in
      let filled = bytes ++ take k (b ∷ input) in
      let rest = drop k (b ∷ input) in
      let size = length-append bytes (take k (b ∷ input)) in
      let taken = length-take k (b ∷ input) in
      let left = length-drop k (b ∷ input) in
      let same = push_all-take_header bytes b input k frames (omega arith) (omega arith) in
      elim (Bool-cases (length filled == 4)) [
        | inr short ↦
            let more = feed_loop-eq fuel (header filled) rest frames (ground arith) (omega arith) in
            ground arith
        | inl full ↦ elim (Result-cases (announce {E = E} filled)) [
          | inl (s, e) ↦
              let more =
                feed_loop-eq fuel s rest frames (announce-IsOpen filled s e) (omega arith) in
              ground arith
          | inr (x, e) ↦ ground arith
        ]
      ]
  feed_loop-eq (suc fuel) (payload bytes n) (b ∷ input) frames ready h =
      let k = min (n - length bytes) (length (b ∷ input)) in
      let filled = bytes ++ take k (b ∷ input) in
      let rest = drop k (b ∷ input) in
      let size = length-append bytes (take k (b ∷ input)) in
      let taken = length-take k (b ∷ input) in
      let left = length-drop k (b ∷ input) in
      let short = ready.0 in
      let bound = ready.1 in
      let same = push_all-take_payload bytes n b input k frames (omega arith) (omega arith) in
      elim (Bool-cases (length filled == n)) [
        | inr e ↦
            let more =
              feed_loop-eq fuel (payload filled n) rest frames (ground arith, bound)
                (omega arith) in
            ground arith
        | inl e ↦
            let more =
              feed_loop-eq fuel new rest (frames ++ filled ∷ []) (omega arith) (omega arith) in
            ground arith
      ]
  feed_loop-eq (suc fuel) closed (b ∷ input) frames ready h = ground arith

  -- `feed` always returns, and from a decoder between two rounds it does to a chunk what its bytes
  -- do one after another.
  pub feed-eq_push_all :
      (s : DecodeState) (input : List ℕ)
      → IsOpen s
      → feed {E = E} s input ≡ some (push_all s input [])
  unfolding feed
  feed-eq_push_all s input ready = feed_loop-eq (suc (length input)) s input [] ready (omega arith)
