-- ===== src/Graph/Kinds.antt =====
-- What the edges between the nodes of an inventory stand for.
use birdbox.Prelude.{
  ◌≡◌, ◌⊎◌, refl, ℕ, suc, String, Bool, true, false, List, [], ◌∷◌, filter, Bool-cases, inl, inr,
  In, first, later, In-filter, All, All-append, All-map, All-In,
}
use birdbox.Graph.Scope.{includes}
use birdbox.Graph.Edges.{
  DependencyKind, DependencyNode, DependencyEdge, define, function, filter_kind, rpki, static_kind,
  source_policy, ospf, pipe, providers_of, edge_for, add_edge, edges_from, edges_of,
  dependency_edges,
}
use birdbox.Graph.Sound.{resolve_provider-In, add_edge-All}
use birdbox.Graph.Inventory.{OspfDomain, DependencyInventory}
use birdbox.Graph.Nodes.{
  Names, policy_node, rpki_node, static_node, source_policy_node, ospf_node, pipe_node, map_from,
  ospf_nodes, dependency_nodes,
}

-- The kinds of resources that a name can stand for.
abbrev pub provides : DependencyKind → Bool
provides define = true
provides function = true
provides filter_kind = false
provides rpki = true
provides static_kind = false
provides source_policy = false
provides ospf = false
provides pipe = false

abbrev pub IsNamed : DependencyNode → Type 0
IsNamed n = (n.provided_symbols ≡ []) ⊎ (provides n.kind ≡ true)

All-map_from {ℓ κ} :
    {A : Type ℓ} {B : Type κ} (P : B → Type 0) (f : ℕ → A → B) (n : ℕ) (xs : List A)
    → ((i : ℕ) (x : A) → P (f i x))
    → All P (map_from n f xs)
unfolding map_from
All-map_from P f n [] h = tt
All-map_from P f n (x ∷ xs) h = (h n x, All-map_from P f (suc n) xs h)

ospf_nodes-IsNamed :
    (names : Names) (n : ℕ) (ds : List OspfDomain) → All IsNamed (ospf_nodes names n ds)
unfolding ospf_nodes ospf_node
ospf_nodes-IsNamed names n [] = tt
ospf_nodes-IsNamed names n (d ∷ ds) =
    All-append IsNamed _ _
      (All-map_from IsNamed (ospf_node names d n) 0 d.node_configs (λ i c. inl refl))
      (ospf_nodes-IsNamed names (suc n) ds)

dependency_nodes-IsNamed :
    (inventory : DependencyInventory) → All IsNamed (dependency_nodes inventory)
unfolding dependency_nodes policy_node rpki_node static_node source_policy_node pipe_node
dependency_nodes-IsNamed inventory =
    All-append IsNamed _ _
      (All-map_from IsNamed (policy_node define 0) 0 inventory.defines (λ i r. inr refl))
      (All-append IsNamed _ _ (All-map_from IsNamed rpki_node 0 inventory.rpki (λ i r. inr refl)) (
        All-append IsNamed _ _
          (All-map_from IsNamed (policy_node function 2) 0 inventory.functions (λ i r. inr refl))
          (All-append IsNamed _ _
            (All-map_from IsNamed (policy_node filter_kind 3) 0 inventory.filters (λ i r. inl refl))
            (All-append IsNamed _ _
              (All-map_from IsNamed (pipe_node _) 0 inventory.pipe_protocols (λ i r. inl refl))
              (All-append IsNamed _ _
                (All-map_from IsNamed static_node 0 inventory.static_protocols (λ i r. inl refl))
                (All-append IsNamed _ _
                  (All-map_from IsNamed (source_policy_node _) 0 inventory.source_policies
                    (λ i r. inl refl))
                  (ospf_nodes-IsNamed _ 0 inventory.ospf_domains)))))))

-- The symbol of an edge is a reference of its consumer, and one that its provider, a node, provides.
abbrev pub Stands : List DependencyNode → DependencyEdge → Type 0
Stands nodes e =
    In e.symbol e.consumer.references
    × (In e.provider nodes × (includes e.provider.provided_symbols e.symbol ≡ true))

In-filter-holds {ℓ} :
    {A : Type ℓ} (p : A → Bool) (xs : List A) {x : A} → In x (filter p xs) → p x ≡ true
In-filter-holds p [] i = elim i [ ]
In-filter-holds p (y ∷ ys) {x} i = elim (Bool-cases (p y)) [
  | inl e ↦ kept e (In-filter-holds p ys) (rw e at i)
  | inr e ↦ In-filter-holds p ys (rw e at i)
]
  where
    kept : p y ≡ true → (In x (filter p ys) → p x ≡ true) → In x (y ∷ filter p ys) → p x ≡ true
    kept e f (first same) = rw same e
    kept e f (later j) = f j

edge_for-Stands :
    (nodes : List DependencyNode) (consumer : DependencyNode) (symbol : String)
    (cs : List DependencyNode) (edges : List DependencyEdge)
    → In symbol consumer.references
    → ((x : DependencyNode) → In x cs → In x nodes × (includes x.provided_symbols symbol ≡ true))
    → All (Stands nodes) edges
    → All (Stands nodes) (add_edge (edge_for consumer symbol cs) edges)
unfolding add_edge
edge_for-Stands nodes consumer symbol [] edges wanted sub h = h
edge_for-Stands nodes consumer symbol (p ∷ ps) edges wanted sub h =
    add_edge-All (Stands nodes) _ edges (wanted, sub _ (resolve_provider-In consumer p ps)) h

edges_from-Stands :
    (nodes : List DependencyNode) (consumer : DependencyNode) (symbols : List String)
    (edges : List DependencyEdge)
    → ((x : String) → In x symbols → In x consumer.references)
    → All (Stands nodes) edges
    → All (Stands nodes) (edges_from nodes consumer symbols edges)
unfolding edges_from providers_of
edges_from-Stands nodes consumer [] edges wanted h = h
edges_from-Stands nodes consumer (s ∷ ss) edges wanted h =
    edges_from-Stands nodes consumer ss _ (λ x i. wanted x (later i))
      (edge_for-Stands nodes consumer s (providers_of s nodes) edges (wanted s (first refl))
        (λ x i. (In-filter _ nodes i, In-filter-holds _ nodes i)) h)

edges_of-Stands :
    (nodes consumers : List DependencyNode) → All (Stands nodes) (edges_of nodes consumers)
unfolding edges_of
edges_of-Stands nodes [] = tt
edges_of-Stands nodes (c ∷ cs) =
    All-append (Stands nodes) _ _ (edges_from-Stands nodes c c.references [] (λ x i. i) tt)
      (edges_of-Stands nodes cs)

provides-symbol :
    (n : DependencyNode) (symbol : String)
    → IsNamed n
    → includes n.provided_symbols symbol ≡ true
    → provides n.kind ≡ true
provides-symbol n symbol (inl empty) h = absurd (let h' = rw empty at h in cc h')
provides-symbol n symbol (inr named) h = named

-- Whatever the inventory, each edge stands for a name that its consumer refers to and its provider
-- provides; and the provider is a define, an RPKI source or a function, never another resource.
pub dependency_edges-Stands :
    (inventory : DependencyInventory)
    → All
        (λ e. Stands (dependency_nodes inventory) e × (provides e.provider.kind ≡ true))
        (dependency_edges (dependency_nodes inventory))
unfolding dependency_edges
dependency_edges-Stands inventory =
    All-map (Stands (dependency_nodes inventory)) _
      (λ e s. (
        s,
        provides-symbol e.provider e.symbol
            (All-In IsNamed _ (dependency_nodes-IsNamed inventory) s.1.0) s.1.1,
      ))
      (edges_of (dependency_nodes inventory) (dependency_nodes inventory))
      (edges_of-Stands (dependency_nodes inventory) (dependency_nodes inventory))
