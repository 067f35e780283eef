-- ===== src/Graph/Acyclic.antt =====
-- `assertAcyclic` of src/bird-resource-dependencies.ts, on fuel: every call marks one more node.
use birdbox.Prelude.{
  ℕ, zero, suc, Bool, true, false, not, ◌&&◌, none, some, List, [], ◌∷◌, filter, is_some,
}
use birdbox.Prelude.Dict
use birdbox.Prelude.Dict.{Dict}
use birdbox.Graph.Edges.{DependencyNode, DependencyEdge, static_kind, outgoing}

pub data Mark : Type 0 where
  visiting complete : Mark

pub data Walk : Type 0 where
  walked : Dict Mark → Walk
  cycle : DependencyNode → Walk
  out_of_fuel : Walk

unfoldable pub is_static : DependencyNode → Bool
is_static n = elim n.kind [ static_kind ↦ true | _ ↦ false ]

-- `new Map(nodes.map((node) => [node.key, node]))`
unfoldable pub index_nodes : Dict DependencyNode → List DependencyNode → Dict DependencyNode
index_nodes m [] = m
index_nodes m (n ∷ ns) = index_nodes (Dict.set n.key n m) ns

-- `graphNodes`: a static protocol is a leaf that nothing refers to.
unfoldable pub graph_nodes : List DependencyNode → Dict DependencyNode
graph_nodes nodes = index_nodes [] (filter (λ n. not (is_static n)) nodes)

-- The edges between these nodes.
unfoldable pub graph_edges : List DependencyNode → List DependencyEdge → List DependencyEdge
graph_edges nodes = filter λ e.
    is_some (Dict.get e.consumer.key (graph_nodes nodes))
    && is_some (Dict.get e.provider.key (graph_nodes nodes))

unfoldable pub then_walk : Walk → (Dict Mark → Walk) → Walk
then_walk (walked marks) k = k marks
then_walk (cycle n) k = cycle n
then_walk out_of_fuel k = out_of_fuel

-- One edge: a provider that is being visited closes a cycle, one that is complete is passed over.
unfoldable pub walk_edge : (DependencyNode → Dict Mark → Walk) → DependencyNode → Dict Mark → Walk
walk_edge walk provider marks = elim (Dict.get provider.key marks) [
  | none ↦ walk provider marks
  | some m ↦ elim m [ visiting ↦ cycle provider | complete ↦ walked marks ]
]

unfoldable pub walk_edges :
    (DependencyNode → Dict Mark → Walk) → List DependencyEdge → Dict Mark → Walk
walk_edges walk [] marks = walked marks
walk_edges walk (e ∷ es) marks = then_walk (walk_edge walk e.provider marks) (walk_edges walk es)

unfoldable pub walk : ℕ → List DependencyEdge → DependencyNode → Dict Mark → Walk
walk zero edges node marks = out_of_fuel
walk (suc fuel) edges node marks =
    then_walk
      (walk_edges (walk fuel edges) (outgoing node.key edges) (Dict.set node.key visiting marks))
      (λ done. walked (Dict.set node.key complete done))

unfoldable pub walk_all : ℕ → List DependencyEdge → List DependencyNode → Dict Mark → Walk
walk_all fuel edges [] marks = walked marks
walk_all fuel edges (n ∷ ns) marks = elim (is_some (Dict.get n.key marks)) [
  | true ↦ walk_all fuel edges ns marks
  | false ↦ then_walk (walk fuel edges n marks) (walk_all fuel edges ns)
]

unfoldable pub assert_acyclic : ℕ → List DependencyNode → List DependencyEdge → Walk
assert_acyclic fuel nodes edges =
    walk_all fuel (graph_edges nodes edges) (Dict.values (graph_nodes nodes)) []
