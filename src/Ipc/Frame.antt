-- ===== src/Ipc/Frame.antt =====
-- Length-prefixed frames, crates/workflow-ipc/src/frame.rs. A byte is a number below 256. The JSON
-- coding of the payloads is serde's: `serialize` and `deserialize` are parameters.
pub mod Bytes
pub mod Stream
pub mod Chunks
pub mod Cuts
mod Examples
use opencode_cycle_plugin.Prelude.{
  ℕ, zero, suc, ◌+◌, ◌-◌, ◌*◌, ◌/◌, ◌%◌, min, Bool, true, false, Option, none, some, List, [], ◌∷◌,
  ◌++◌, Result, ok, err, ltb, ◌==◌, if◌then◌else◌, length, take, drop, is_empty,
}

abbrev pub max_frame_bytes : ℕ
max_frame_bytes = 8388608

abbrev pub Frame : Type 0
Frame = List ℕ

-- `E` is the error of the JSON coding.
pub data FrameError (E : Type 0) : Type 0 where
  empty poisoned : FrameError E
  json : E → FrameError E
  oversized : ℕ → ℕ → FrameError E

-- `u32::to_be_bytes` and `u32::from_be_bytes`
unfoldable pub to_be_bytes : ℕ → List ℕ
to_be_bytes n = n / 16777216 % 256 ∷ n / 65536 % 256 ∷ n / 256 % 256 ∷ n % 256 ∷ []

abbrev pub from_be : ℕ → List ℕ → ℕ
from_be acc [] = acc
from_be acc (b ∷ bs) = from_be (acc * 256 + b) bs

unfoldable pub from_be_bytes : List ℕ → ℕ
from_be_bytes bs = from_be 0 bs

module _ {T E : Type 0} (serialize : T → Result Frame E) where
  unfoldable pub encode_frame : T → Result (List ℕ) (FrameError E)
  encode_frame value = elim (serialize value) [
    | err e ↦ err (json e)
    | ok payload ↦
        if is_empty payload
        then err empty
        else if ltb max_frame_bytes (length payload)
        then err (oversized (length payload) max_frame_bytes)
        else ok (to_be_bytes (length payload) ++ payload)
  ]

-- `closed` is the source's `Poisoned`, the name that `FrameError` has here. `Header` keeps the first `filled` bytes of its array: the others are written before they are read.
pub data DecodeState : Type 0 where
  header : List ℕ → DecodeState
  payload : List ℕ → ℕ → DecodeState
  closed : DecodeState

-- `FrameDecoder::new`
abbrev pub new : DecodeState
new = header []

abbrev pub Fed : Type 0 → Type 0
Fed E = DecodeState × Result (List Frame) (FrameError E)

module _ {E : Type 0} where
  -- a full header announces a payload
  unfoldable pub announce : List ℕ → Result DecodeState (FrameError E)
  announce bytes =
      let length = from_be_bytes bytes in
      if length == 0
      then err empty
      else if ltb max_frame_bytes length
      then err (oversized length max_frame_bytes)
      else ok (payload [] length)

  -- The `while` loop of `feed`, with fuel: each round takes at least one byte. `none` means that
  -- the fuel ran out.
  unfoldable pub feed_loop : ℕ → DecodeState → List ℕ → List Frame → Option (Fed E)
  feed_loop zero s input complete = none
  feed_loop (suc fuel) s [] complete = some (s, ok complete)
  feed_loop (suc fuel) (header bytes) (b ∷ input) complete =
      let copied = min (4 - length bytes) (length (b ∷ input)) in
      let filled = bytes ++ take copied (b ∷ input) in
      let rest = drop copied (b ∷ input) in
      let onward = λ (s : DecodeState). feed_loop fuel s rest complete in
      if length filled == 4
      then (elim (announce filled) [ err e ↦ some (closed, err e) | ok s ↦ onward s ])
      else onward (header filled)
  feed_loop (suc fuel) (payload bytes n) (b ∷ input) complete =
      let copied = min (n - length bytes) (length (b ∷ input)) in
      let filled = bytes ++ take copied (b ∷ input) in
      let rest = drop copied (b ∷ input) in
      let last = feed_loop fuel new rest (complete ++ filled ∷ []) in
      let more = feed_loop fuel (payload filled n) rest complete in
      if length filled == n then last else more
  feed_loop (suc fuel) closed (b ∷ input) complete = some (closed, err poisoned)

  unfoldable pub feed : DecodeState → List ℕ → Option (Fed E)
  feed s input = feed_loop (suc (length input)) s input []

  -- the loop of `feed_json` over the frames
  unfoldable pub decode_frames :
      {T : Type 0} → (Frame → Result T E) → List Frame → Result (List T) (FrameError E)
  decode_frames deserialize [] = ok []
  decode_frames deserialize (frame ∷ frames) = elim (deserialize frame) [
    | err e ↦ err (json e)
    | ok value ↦ elim (decode_frames deserialize frames) [
      | err e ↦ err e
      | ok values ↦ ok (value ∷ values)
    ]
  ]

  abbrev close_on_error :
      {T : Type 0}
      → DecodeState
      → Result (List T) (FrameError E)
      → DecodeState × Result (List T) (FrameError E)
  close_on_error s (ok values) = (s, ok values)
  close_on_error s (err e) = (closed, err e)

  unfoldable pub feed_json :
      {T : Type 0}
      → (Frame → Result T E)
      → DecodeState
      → List ℕ
      → Option (DecodeState × Result (List T) (FrameError E))
  feed_json deserialize s input = elim (feed s input) [
    | none ↦ none
    | some (s', err e) ↦ some (s', err e)
    | some (s', ok frames) ↦ some (close_on_error s' (decode_frames deserialize frames))
  ]

unfoldable pub buffered_bytes : DecodeState → ℕ
buffered_bytes (header bytes) = length bytes
buffered_bytes (payload bytes n) = length bytes
buffered_bytes closed = 0
