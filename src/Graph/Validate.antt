-- ===== src/Graph/Validate.antt =====
-- `validateResourceDependencyGraph` of src/bird-resource-dependencies.ts.
use birdbox.Prelude.{ℕ, Bool, ◌&&◌, ◌||◌, List, [], ◌∷◌, ltb, ◌==◌, leb, if◌then◌else◌}
use birdbox.Graph.Acyclic.{Walk, assert_acyclic}
use birdbox.Graph.Closure.{Verdict, Complaint, validate_dependency_closure}
use birdbox.Graph.Edges.{DependencyNode, DependencyEdge, dependency_edges}

pub data Validation : Type 0 where
  accepted : Validation
  cyclic : DependencyNode → Validation
  invalid : Complaint → Validation
  out_of_fuel : Validation

-- `right.phase - left.phase || left.index - right.index`, as a stable sort.
unfoldable pub comes_first : DependencyNode → DependencyNode → Bool
comes_first left right =
    ltb right.phase left.phase || (left.phase == right.phase && leb left.index right.index)

unfoldable pub insert_node : DependencyNode → List DependencyNode → List DependencyNode
insert_node n [] = n ∷ []
insert_node n (m ∷ ms) = if comes_first n m then n ∷ m ∷ ms else m ∷ insert_node n ms

unfoldable pub sort_nodes : List DependencyNode → List DependencyNode
sort_nodes [] = []
sort_nodes (n ∷ ns) = insert_node n (sort_nodes ns)

abbrev pub then_validate : Verdict → Validation → Validation
then_validate (Verdict.visited seen) rest = rest
then_validate (Verdict.scope_mismatch c) rest = invalid c
then_validate (Verdict.disabled_provider c) rest = invalid c
then_validate (Verdict.declared_later c) rest = invalid c
then_validate Verdict.out_of_fuel rest = out_of_fuel

unfoldable pub validate_closures : ℕ → List DependencyEdge → List DependencyNode → Validation
validate_closures fuel edges [] = accepted
validate_closures fuel edges (n ∷ ns) =
    then_validate (validate_dependency_closure fuel edges n) (validate_closures fuel edges ns)

abbrev pub after_walk : Walk → Validation → Validation
after_walk (Walk.walked marks) rest = rest
after_walk (Walk.cycle n) rest = cyclic n
after_walk Walk.out_of_fuel rest = out_of_fuel

unfoldable pub validate_resource_dependency_graph : ℕ → ℕ → List DependencyNode → Validation
validate_resource_dependency_graph walk_fuel fuel nodes =
    let edges = dependency_edges nodes in
    after_walk (assert_acyclic walk_fuel nodes edges)
      (validate_closures fuel edges (sort_nodes nodes))
