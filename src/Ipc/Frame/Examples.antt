-- ===== src/Ipc/Frame/Examples.antt =====
-- The theorems on frames at concrete streams: a value is its own frame, unless it is empty.
use opencode_cycle_plugin.Prelude.{ℕ, ◌≡◌, refl, some, List, [], ◌∷◌, Result, ok, err, arith}
use opencode_cycle_plugin.Ipc.Frame.{
  Frame, payload, closed, new, feed, feed_loop, announce, from_be_bytes, to_be_bytes, encode_frame,
  empty, decode_frames,
}
use opencode_cycle_plugin.Ipc.Frame.Cuts.{
  concat, Received, feed_chunks, IsOutcome, feed_chunks-IsOutcome,
}
use opencode_cycle_plugin.Ipc.Frame.Chunks.{encode_all, feed_chunks-encode_all}

abbrev copy : List ℕ → Result (List ℕ) ℕ
copy bytes = ok bytes

abbrev stream : List ℕ
stream = 0 ∷ 0 ∷ 0 ∷ 2 ∷ 7 ∷ 8 ∷ 0 ∷ 0 ∷ 0 ∷ 1 ∷ 9 ∷ []

abbrev pieces : List (List ℕ)
pieces = (0 ∷ 0 ∷ []) ∷ (0 ∷ 2 ∷ 7 ∷ []) ∷ [] ∷ (8 ∷ 0 ∷ 0 ∷ 0 ∷ 1 ∷ 9 ∷ []) ∷ []

feed_split : feed {E = ℕ} new (0 ∷ 0 ∷ 0 ∷ 2 ∷ 7 ∷ []) ≡ some (payload (7 ∷ []) 2, ok [])
unfolding feed feed_loop announce from_be_bytes
feed_split = refl

feed_zero_length : feed {E = ℕ} new (0 ∷ 0 ∷ 0 ∷ 0 ∷ 7 ∷ []) ≡ some (closed, err empty)
unfolding feed feed_loop announce from_be_bytes
feed_zero_length = refl

-- a frame of one byte, and a header of length zero in a chunk of its own
abbrev spoiled : List (List ℕ)
spoiled = (0 ∷ 0 ∷ 0 ∷ 1 ∷ 7 ∷ []) ∷ (0 ∷ 0 ∷ 0 ∷ 0 ∷ []) ∷ []

spoiled_apart : feed_chunks {E = ℕ} new spoiled [] ≡ some (closed, (7 ∷ []) ∷ [], err empty)
unfolding feed_chunks feed feed_loop announce from_be_bytes
spoiled_apart = refl

spoiled_together : feed_chunks {E = ℕ} new (concat spoiled ∷ []) [] ≡ some (closed, [], err empty)
unfolding feed_chunks concat feed feed_loop announce from_be_bytes
spoiled_together = refl

feed_chunks-IsOutcome_example :
    (r : Received ℕ) × (feed_chunks new spoiled [] ≡ some r) × IsOutcome new spoiled [] r
feed_chunks-IsOutcome_example = feed_chunks-IsOutcome new spoiled [] (omega arith)

copy-inverse : (value frame : List ℕ) → copy value ≡ ok frame → copy frame ≡ ok value
copy-inverse value frame e = ground arith

encode_stream : encode_all copy ((7 ∷ 8 ∷ []) ∷ (9 ∷ []) ∷ []) ≡ ok stream
unfolding encode_all encode_frame to_be_bytes
encode_stream = refl

concat-pieces : concat pieces ≡ stream
unfolding concat
concat-pieces = refl

feed_chunks-encode_all_example :
    (frames : List Frame) × (feed_chunks {E = ℕ} new pieces [] ≡ some (new, frames, ok tt))
    × (decode_frames copy frames ≡ ok ((7 ∷ 8 ∷ []) ∷ (9 ∷ []) ∷ []))
feed_chunks-encode_all_example =
    feed_chunks-encode_all copy copy copy-inverse ((7 ∷ 8 ∷ []) ∷ (9 ∷ []) ∷ []) stream pieces
      encode_stream concat-pieces
