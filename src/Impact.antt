-- ===== src/Impact.antt =====
-- src/resource-impact.ts: the nodes and sessions that a change of a resource touches.
use birdbox.Prelude.{
  String, Bool, true, false, not, ◌&&◌, Option, none, some, List, [], ◌∷◌, ◌++◌, map, str_eq,
  if◌then◌else◌, filter, any,
}
use birdbox.Graph.Scope.{Scope, scoped_node_ids}
pub mod Unique
mod Tests

-- The texts of a list of ids that are neither missing nor empty.
unfoldable pub given_ids : List (Option String) → List String
given_ids [] = []
given_ids (none ∷ ids) = given_ids ids
given_ids (some id ∷ ids) = let rest = given_ids ids in if str_eq id "" then rest else id ∷ rest

abbrev pub has_id : String → List String → Bool
has_id id ids = any (λ x. str_eq x id) ids

-- `[...new Set(ids)]`, where `seen` holds what the set has, in order.
unfoldable pub into_set : List String → List String → List String
into_set seen [] = seen
into_set seen (id ∷ ids) = into_set (if has_id id seen then seen else seen ++ id ∷ []) ids

unfoldable pub unique_node_ids : List (Option String) → List String
unique_node_ids groups = into_set [] (given_ids groups)

-- `none` is a resource that is not there; it touches every node, as one without a scope does.
unfoldable pub resource_node_ids : List String → Option Scope → List String
resource_node_ids nodes none = nodes
resource_node_ids nodes (some resource) = elim (scoped_node_ids resource) [
  | none ↦ nodes
  | some ids ↦ ids
]

unfoldable pub resource_change_node_ids : List String → Option Scope → Option Scope → List String
resource_change_node_ids nodes previous updated =
    unique_node_ids (map some (resource_node_ids nodes previous ++ resource_node_ids nodes updated))

-- Sessions by the node on which they stand.
unfoldable pub resource_change_sessions :
    {S : Type 0} → (S → String) → List S → List (Option String) → List S
resource_change_sessions node_of sessions ids =
    filter (λ s. has_id (node_of s) (unique_node_ids ids)) sessions
