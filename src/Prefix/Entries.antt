-- ===== src/Prefix/Entries.antt =====
-- `splitBirdPrefixEntries` of packages/contracts/src/prefix-entries.ts.
use birdbox.Prelude.{
  ℕ, suc, Bool, false, ◌&&◌, ◌||◌, List, [], ◌∷◌, ◌++◌, ◌==◌, if◌then◌else◌, is_empty,
}
use birdbox.Prelude.Text.{Text, trim}

-- A comma, a semicolon or a line break.
abbrev pub is_separator : ℕ → Bool
is_separator u = u == 44 || (u == 59 || u == 10)

abbrev pub count_if : Bool → ℕ → ℕ
count_if holds n = if holds then suc n else n

abbrev pub keep : Text → List Text → List Text
keep entry entries = if is_empty entry then entries else entry ∷ entries

-- The depth, which may be negative, is the number of braces opened less the number closed. `entry` is
-- what stands between the start of the entry and the place of the loop.
unfoldable pub split_from : ℕ → ℕ → Text → Text → List Text
split_from opened closed entry [] = keep (trim entry) []
split_from opened closed entry (u ∷ us) =
    let next = split_from (count_if (u == 123) opened) (count_if (u == 125) closed) [] us in
    let more =
      split_from (count_if (u == 123) opened) (count_if (u == 125) closed) (entry ++ u ∷ []) us in
    if is_separator u && count_if (u == 123) opened == count_if (u == 125) closed
    then keep (trim entry) next
    else more

-- `source.endsWith("]")`, of what follows the first character, and `slice(1, -1)`.
abbrev pub ends_bracket : Text → Bool
ends_bracket [] = false
ends_bracket (u ∷ []) = u == 93
ends_bracket (u ∷ v ∷ us) = ends_bracket (v ∷ us)

abbrev pub without_last : Text → Text
without_last [] = []
without_last (u ∷ []) = []
without_last (u ∷ v ∷ us) = u ∷ without_last (v ∷ us)

unfoldable pub unbracketed : Text → Text
unbracketed [] = []
unbracketed (u ∷ us) = if u == 91 && ends_bracket us then without_last us else u ∷ us

unfoldable pub split_bird_prefix_entries : Text → List Text
split_bird_prefix_entries value = split_from 0 0 [] (unbracketed (trim value))
