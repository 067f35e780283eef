-- ===== src/Graph/Scope.antt =====
-- packages/contracts/src/resource-scope.ts: on which nodes a resource stands. `none` is every node.
use birdbox.Prelude.{String, Bool, true, false, Option, none, some, List, [], ◌∷◌, str_eq, any, all}

pub data Scope : Type 0 where
  single : Option String → Scope
  multi : Option (List String) → Scope

unfoldable pub is_multi_node_scoped_resource : Scope → Bool
is_multi_node_scoped_resource (single _) = false
is_multi_node_scoped_resource (multi _) = true

unfoldable pub scoped_node_ids : Scope → Option (List String)
scoped_node_ids (multi nodes) = nodes
scoped_node_ids (single none) = none
scoped_node_ids (single (some node)) = some (node ∷ [])

abbrev pub includes : List String → String → Bool
includes ids id = any (λ x. str_eq x id) ids

abbrev pub applies_in : Option (List String) → String → Bool
applies_in none id = true
applies_in (some ids) id = includes ids id

unfoldable pub resource_applies_to_node : Scope → String → Bool
resource_applies_to_node r node = applies_in (scoped_node_ids r) node

unfoldable pub resource_explicitly_scopes_node : Scope → String → Bool
resource_explicitly_scopes_node r node = elim (scoped_node_ids r) [
  | none ↦ false
  | some ids ↦ includes ids node
]

abbrev only : List String → Option String
only [] = none
only (id ∷ []) = some id
only (id ∷ other ∷ ids) = none

unfoldable pub resource_single_node_id : Scope → Option String
resource_single_node_id r = elim (scoped_node_ids r) [ none ↦ none | some ids ↦ only ids ]

abbrev pub contains_ids : Option (List String) → Option (List String) → Bool
contains_ids none consumer = true
contains_ids (some ids) none = false
contains_ids (some ids) (some wanted) = all (includes ids) wanted

unfoldable pub resource_scope_contains : Scope → Scope → Bool
resource_scope_contains provider consumer =
    contains_ids (scoped_node_ids provider) (scoped_node_ids consumer)
