-- ===== src/Prefix/Tests.antt =====
-- Runs of the model of prefix lists.
use birdbox.Prelude.{true, false, ◌≡◌, refl, ℕ, some, [], ◌∷◌, ◌++◌}
use birdbox.Prelude.Text.{Text, units, trim, trim_start, trim_end, same_text}
use birdbox.Prefix.Entries.{split_bird_prefix_entries, split_from, unbracketed}
use birdbox.Prefix.Separated.{IsEntry, joined, split-joined}
use birdbox.Prefix.Pattern.{
  valid, listed, written, parse_bird_prefix_entries, entries_of, normalize_all,
  normalize_bird_prefix_pattern, refusal_of, refusal, family_refusal, length_refusal, range_refusal,
  match_pattern, matched, cut_slash, take_digits, number_from, range_of, without_space,
  list_refusal, repeated, is_exact_prefix,
}
use birdbox.Prefix.Stable.{parse-again}

abbrev ten : Text
ten = units "10.0.0.0/8{9,24}"

abbrev lan : Text
lan = units "192.168.0.0/16+"

ranged : IsEntry ten
unfolding units trim trim_start trim_end
ranged = record { closed = refl; trimmed = refl; something = refl }

longer : IsEntry lan
unfolding units trim trim_start trim_end
longer = record { closed = refl; trimmed = refl; something = refl }

split-joined_example :
    split_bird_prefix_entries (91 ∷ joined (ten ∷ lan ∷ []) ++ 93 ∷ []) ≡ ten ∷ lan ∷ []
split-joined_example = split-joined (ten ∷ lan ∷ []) (ranged, (longer, tt))

abbrev all_ipv4 : Text → ℕ
all_ipv4 address = 4

parsed :
    parse_bird_prefix_entries all_ipv4
      (some 4)
      256
      (written (units " 10.0.0.0 /8{9,24};192.168.0.0/16+"))
    ≡ valid (ten ∷ lan ∷ [])
unfolding parse_bird_prefix_entries entries_of split_bird_prefix_entries split_from unbracketed
    units trim trim_start trim_end same_text normalize_all normalize_bird_prefix_pattern refusal_of
    refusal family_refusal length_refusal range_refusal match_pattern matched cut_slash take_digits
    number_from range_of without_space list_refusal repeated
parsed = refl

parse-again_example :
    parse_bird_prefix_entries all_ipv4 (some 4) 256 (listed (ten ∷ lan ∷ []))
    ≡ valid (ten ∷ lan ∷ [])
parse-again_example =
    parse-again all_ipv4 (some 4) 256 (written (units " 10.0.0.0 /8{9,24};192.168.0.0/16+"))
      (ten ∷ lan ∷ []) parsed

told_apart :
    (is_exact_prefix (units "fd00::/8") ≡ true)
    × ((is_exact_prefix lan ≡ false) × (is_exact_prefix ten ≡ false))
unfolding is_exact_prefix cut_slash take_digits units
told_apart = (refl, (refl, refl))
