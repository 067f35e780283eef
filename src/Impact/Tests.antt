-- ===== src/Impact/Tests.antt =====
-- Runs of the model of src/resource-impact.ts.
use birdbox.Prelude.{
  ◌≡◌, ◌≤◌, ◌&&◌, not, any, str_eq, refl, Option, none, some, List, [], ◌∷◌, String,
}
use birdbox.Impact.{unique_node_ids, given_ids, into_set, has_id}
use birdbox.Impact.Unique.{unique_node_ids-once, times, is_id}

abbrev groups : List (Option String)
groups = some "b" ∷ none ∷ some "" ∷ some "a" ∷ some "b" ∷ []

ids_listed : unique_node_ids groups ≡ "b" ∷ "a" ∷ []
unfolding unique_node_ids given_ids into_set
ids_listed = refl

unique_node_ids-once_example :
    (times "b" (unique_node_ids groups) ≤ 1)
    × (has_id "b" (unique_node_ids groups) ≡ (not (str_eq "b" "") && any (is_id "b") groups))
unique_node_ids-once_example = unique_node_ids-once groups "b"
