-- ===== src/Graph/Closure.antt =====
-- `validateDependencyClosure` of src/bird-resource-dependencies.ts, on fuel: each call goes from a
-- node to one that is declared before it.
use birdbox.Prelude.{
  ℕ, zero, suc, String, true, false, not, ◌||◌, Option, none, some, List, [], ◌∷◌, ◌++◌,
  if◌then◌else◌,
}
use birdbox.Graph.Edges.{DependencyNode, DependencyEdge, outgoing, declared_before}
use birdbox.Graph.Scope.{resource_scope_contains, includes}

-- What a failed check names: the root, the edge, and the path of nodes that leads to it.
pub record Complaint : Type 0 where
  pub root : DependencyNode
  pub edge : DependencyEdge
  pub path : List DependencyNode

pub data Verdict : Type 0 where
  visited : List String → Verdict
  scope_mismatch disabled_provider declared_later : Complaint → Verdict
  out_of_fuel : Verdict

-- The three checks of an edge, in the code's order.
unfoldable pub check_edge : Complaint → Option Verdict
check_edge c =
    if not (resource_scope_contains c.edge.provider.scope c.edge.consumer.scope)
    then some (scope_mismatch c)
    else if not (not c.edge.consumer.enabled || c.edge.provider.enabled)
    then some (disabled_provider c)
    else if not (declared_before c.edge.provider c.edge.consumer)
    then some (declared_later c)
    else none

-- Goes on where nothing was found.
unfoldable pub then_visit : Verdict → (List String → Verdict) → Verdict
then_visit (visited seen) k = k seen
then_visit (scope_mismatch c) k = scope_mismatch c
then_visit (disabled_provider c) k = disabled_provider c
then_visit (declared_later c) k = declared_later c
then_visit out_of_fuel k = out_of_fuel

-- The loop over the edges of one node, where `visit` is the call for a provider.
unfoldable pub visit_edges :
    (DependencyNode → List DependencyNode → List String → Verdict)
    → DependencyNode
    → List DependencyNode
    → List DependencyEdge
    → List String
    → Verdict
visit_edges visit root path [] seen = visited seen
visit_edges visit root path (e ∷ es) seen =
    let dependency_path = path ++ e.provider ∷ [] in
    elim (check_edge (record { root = root; edge = e; path = dependency_path })) [
      | some failed ↦ failed
      | none ↦ then_visit (visit e.provider dependency_path seen) (visit_edges visit root path es)
    ]

unfoldable pub visit :
    ℕ
    → List DependencyEdge
    → DependencyNode
    → DependencyNode
    → List DependencyNode
    → List String
    → Verdict
visit zero edges root current path seen = out_of_fuel
visit (suc fuel) edges root current path seen = elim (includes seen current.key) [
  | true ↦ visited seen
  | false ↦
      visit_edges (visit fuel edges root) root path (outgoing current.key edges)
        (seen ++ current.key ∷ [])
]

unfoldable pub validate_dependency_closure : ℕ → List DependencyEdge → DependencyNode → Verdict
validate_dependency_closure fuel edges root = visit fuel edges root root (root ∷ []) []
