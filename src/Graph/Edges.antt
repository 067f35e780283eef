-- ===== src/Graph/Edges.antt =====
-- The nodes and edges of src/bird-resource-dependencies.ts. A `Set` of texts is the list of its
-- members in the order of insertion.
use birdbox.Prelude.{
  ℕ, String, Bool, ◌&&◌, ◌||◌, Option, none, some, List, [], ◌∷◌, ◌++◌, str_eq, ltb, ◌==◌,
  if◌then◌else◌, filter, find, any, or_else,
}
use birdbox.Graph.Scope.{Scope, resource_scope_contains, includes}

pub data DependencyKind : Type 0 where
  define function filter_kind rpki static_kind source_policy ospf pipe : DependencyKind

pub record DependencyNode : Type 0 where
  pub key : String
  pub kind : DependencyKind
  pub name : String
  pub enabled : Bool
  pub scope : Scope
  pub phase : ℕ
  pub index : ℕ
  pub references : List String
  pub provided_symbols : List String

pub record DependencyEdge : Type 0 where
  pub consumer : DependencyNode
  pub provider : DependencyNode
  pub symbol : String

abbrev pub has_key : String → DependencyNode → Bool
has_key k n = str_eq n.key k

-- `providersBySymbol.get(symbol)`: the nodes that provide it, in their order.
unfoldable pub providers_of : String → List DependencyNode → List DependencyNode
providers_of symbol = filter (λ n. includes n.provided_symbols symbol)

unfoldable pub resolve_provider :
    DependencyNode → DependencyNode → List DependencyNode → DependencyNode
resolve_provider consumer first rest =
    or_else (find (λ c. resource_scope_contains c.scope consumer.scope) (first ∷ rest))
      (or_else (find (has_key consumer.key) (first ∷ rest)) first)

abbrev pub edge_for : DependencyNode → String → List DependencyNode → Option DependencyEdge
edge_for consumer symbol [] = none
edge_for consumer symbol (c ∷ cs) =
    some
      (record { consumer = consumer; provider = resolve_provider consumer c cs; symbol = symbol })

-- Only the first edge to a provider is kept.
unfoldable pub add_edge : Option DependencyEdge → List DependencyEdge → List DependencyEdge
add_edge none edges = edges
add_edge (some e) edges =
    if any (λ d. str_eq d.provider.key e.provider.key) edges then edges else edges ++ e ∷ []

unfoldable pub edges_from :
    List DependencyNode → DependencyNode → List String → List DependencyEdge → List DependencyEdge
edges_from nodes consumer [] edges = edges
edges_from nodes consumer (symbol ∷ symbols) edges =
    edges_from nodes consumer symbols
      (add_edge (edge_for consumer symbol (providers_of symbol nodes)) edges)

unfoldable pub edges_of : List DependencyNode → List DependencyNode → List DependencyEdge
edges_of nodes [] = []
edges_of nodes (consumer ∷ consumers) =
    edges_from nodes consumer consumer.references [] ++ edges_of nodes consumers

unfoldable pub dependency_edges : List DependencyNode → List DependencyEdge
dependency_edges nodes = edges_of nodes nodes

-- `outgoing.get(key) ?? []`
unfoldable pub outgoing : String → List DependencyEdge → List DependencyEdge
outgoing key = filter (λ e. str_eq e.consumer.key key)

unfoldable pub declared_before : DependencyNode → DependencyNode → Bool
declared_before provider consumer =
    ltb provider.phase consumer.phase
    || (provider.phase == consumer.phase && ltb provider.index consumer.index)
