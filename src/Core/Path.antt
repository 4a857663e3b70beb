-- ===== src/Core/Path.antt =====
-- Project-relative paths, crates/workflow-core/src/path.rs. A path is the list of its UTF-8 bytes:
-- the characters that the code looks for are ASCII.
use opencode_cycle_plugin.Prelude.{
  ℕ, Bool, true, false, not, ◌&&◌, ◌||◌, Option, none, some, List, [], ◌∷◌, ◌++◌, ◌==◌,
  if◌then◌else◌, all, any, is_empty,
}

abbrev pub FilePath : Type 0
FilePath = List ℕ

abbrev pub slash : ℕ
slash = b'/'

abbrev pub bytes_eq : List ℕ → List ℕ → Bool
bytes_eq [] [] = true
bytes_eq (x ∷ xs) (y ∷ ys) = x == y && bytes_eq xs ys
bytes_eq _ _ = false

-- the segments before and behind each `/`, at least one
abbrev pub split_at : List ℕ → List ℕ → List (List ℕ)
split_at current [] = current ∷ []
split_at current (c ∷ rest) =
    let later = split_at (current ++ c ∷ []) rest in
    let apart = split_at [] rest in if c == slash then current ∷ apart else later

-- `path.split('/')`
unfoldable pub split : FilePath → List (List ℕ)
split path = split_at [] path

abbrev has_drive : FilePath → Bool
has_drive (_ ∷ c ∷ _) = c == b':'
has_drive _ = false

abbrev starts_with_slash : FilePath → Bool
starts_with_slash (c ∷ _) = c == slash
starts_with_slash [] = false

abbrev is_plain : List ℕ → Bool
is_plain segment =
    not (is_empty segment)
    && not (bytes_eq segment (b'.' ∷ []))
    && not (bytes_eq segment (b'.' ∷ b'.' ∷ []))

unfoldable pub is_safe_relative : FilePath → Bool
unfolding split
is_safe_relative path =
    not (is_empty path)
    && not (any (λ c. c == 0x5c) path)
    && not (starts_with_slash path)
    && not (has_drive path)
    && all is_plain (split path)

abbrev pub strip_prefix : FilePath → FilePath → Option FilePath
strip_prefix rest [] = some rest
strip_prefix [] (p ∷ ps) = none
strip_prefix (c ∷ rest) (p ∷ ps) = if c == p then strip_prefix rest ps else none

abbrev below : Option FilePath → Bool
below none = false
below (some suffix) = starts_with_slash suffix

unfoldable pub overlaps : FilePath → FilePath → Bool
overlaps first second =
    bytes_eq first second || below (strip_prefix first second) || below (strip_prefix second first)
