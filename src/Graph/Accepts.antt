-- ===== src/Graph/Accepts.antt =====
-- Which inventories `validateResourceDependencyGraph` of src/bird-resource-dependencies.ts accepts.
use native.Mathlib.Nat.{mul-le-mul_right}
use birdbox.Prelude.{
  ℕ, ◌+◌, ◌*◌, ◌≤◌, ◌<◌, ◌≡◌, ◌≢◌, ◌↔◌, refl, ap, String, true, ltb, Option, none, some, List, [],
  ◌∷◌, arith, str_eq, eq_iff, find, All, All-filter, All-map, All-zip, In, first, later, All-In,
  All-tabulate, Bool-cases, inl, inr,
}
use birdbox.Prelude.Dict
use birdbox.Prelude.Dict.{Dict}
use birdbox.Graph.Acyclic.{
  visiting, assert_acyclic, graph_nodes, graph_edges, index_nodes, is_static, walk_all, Walk,
  walked,
}
use birdbox.Graph.Acyclic
use birdbox.Graph.Closure.{validate_dependency_closure, visit, Verdict}
use birdbox.Graph.Edges.{
  DependencyNode, DependencyEdge, has_key, dependency_edges, declared_before, outgoing,
}
use birdbox.Graph.Ranked.{IsValid, Falls, visit-Ends, walk_all_completes}
use birdbox.Graph.Sound.{Joins, dependency_edges-All, closure_sound}
use birdbox.Graph.Validate.{
  accepted, insert_node, sort_nodes, comes_first, then_validate, after_walk, validate_closures,
  validate_resource_dependency_graph,
}

-- The place of a node in the order of declaration, where every index is below `width`.
abbrev place : ℕ → DependencyNode → ℕ
place width n = n.phase * width + n.index

abbrev place_in : ℕ → Option DependencyNode → ℕ
place_in width none = 0
place_in width (some n) = place width n

rank : ℕ → List DependencyNode → String → ℕ
rank width nodes k = place_in width (find (has_key k) nodes)

-- Each node is the one of its key, its index is below `width`, and its place is below the fuel.
pub record IsListed (width fuel : ℕ) (nodes : List DependencyNode) (n : DependencyNode)
    : Type 0 where
  pub unique : find (has_key n.key) nodes ≡ some n
  pub narrow : n.index < width
  pub fuelled : n.phase * width + n.index < fuel

rank-eq-place :
    (width fuel : ℕ) (nodes : List DependencyNode) (n : DependencyNode)
    → IsListed width fuel nodes n
    → rank width nodes n.key ≡ place width n
unfolding rank
rank-eq-place width fuel nodes n l = ap (place_in width) l.unique

declared_before-place :
    (width : ℕ) (p c : DependencyNode)
    → declared_before p c ≡ true
    → p.index < width
    → place width p < place width c
unfolding declared_before
declared_before-place width p c e h = elim (Bool-cases (ltb p.phase c.phase)) [
  | inl lower ↦
      let below : p.phase + 1 ≤ c.phase = ground arith in
      let scaled : (p.phase + 1) * width ≤ c.phase * width = mul-le-mul_right width below in
      omega arith
  | inr level ↦
      let same : p.phase ≡ c.phase = ground arith in
      let before : p.index < c.index = ground arith in rw same (omega arith)
]

insert_node-All :
    (P : DependencyNode → Type 0) (n : DependencyNode) (ns : List DependencyNode)
    → (P n × All P ns) ↔ All P (insert_node n ns)
unfolding insert_node
insert_node-All P n [] = ((λ h. h), (λ h. h))
insert_node-All P n (m ∷ ms) = elim (Bool-cases (comes_first n m)) [
  | inl e ↦ rw e ((λ h. h), (λ h. h))
  | inr e ↦ rw e (
    (λ h. (h.1.0, (insert_node-All P n ms).0 (h.0, h.1.1))),
    (λ h. let (p, t) = (insert_node-All P n ms).1 h.1 in (p, (h.0, t))),
  )
]

sort_nodes-All :
    (P : DependencyNode → Type 0) (ns : List DependencyNode) → All P ns ↔ All P (sort_nodes ns)
unfolding sort_nodes
sort_nodes-All P [] = ((λ h. h), (λ h. h))
sort_nodes-All P (n ∷ ns) = (
  (λ h. (insert_node-All P n (sort_nodes ns)).0 (h.0, (sort_nodes-All P ns).0 h.1)),
  (λ h. let (p, t) = (insert_node-All P n (sort_nodes ns)).1 h in (p, (sort_nodes-All P ns).1 t)),
)

closures_sound :
    (fuel : ℕ) (edges : List DependencyEdge) (ns : List DependencyNode)
    → validate_closures fuel edges ns ≡ accepted
    → All (λ n. All IsValid (outgoing n.key edges)) ns
unfolding validate_closures
closures_sound fuel edges [] e = tt
closures_sound fuel edges (n ∷ ns) e =
    taken (closures_sound fuel edges ns) (validate_dependency_closure fuel edges n) refl e
  where
    taken :
        (validate_closures fuel edges ns ≡ accepted
          → All (λ m. All IsValid (outgoing m.key edges)) ns)
        → (v : Verdict) → validate_dependency_closure fuel edges n ≡ v
        → then_validate v (validate_closures fuel edges ns) ≡ accepted
        → All (λ m. All IsValid (outgoing m.key edges)) (n ∷ ns)
    taken ih (Verdict.visited s) same rest = (closure_sound fuel edges n same, ih rest)
    taken ih (Verdict.scope_mismatch c) same rest = absurd (cc rest)
    taken ih (Verdict.disabled_provider c) same rest = absurd (cc rest)
    taken ih (Verdict.declared_later c) same rest = absurd (cc rest)
    taken ih Verdict.out_of_fuel same rest = absurd (cc rest)

outgoing-In :
    (edges : List DependencyEdge) (e : DependencyEdge)
    → In e edges
    → In e (outgoing e.consumer.key edges)
unfolding outgoing
outgoing-In [] e i = elim i [ ]
outgoing-In (x ∷ xs) e (first same) =
    rw (← same) (rw ((eq_iff e.consumer.key e.consumer.key).1 refl) (first refl))
outgoing-In (x ∷ xs) e (later i) = elim (Bool-cases (str_eq x.consumer.key e.consumer.key)) [
  | inl yes_key ↦ rw yes_key (later (outgoing-In xs e i))
  | inr no_key ↦ rw no_key (outgoing-In xs e i)
]

closures_accept :
    (width fuel : ℕ) (nodes : List DependencyNode) (edges : List DependencyEdge)
    (ns : List DependencyNode)
    → All (λ e. IsValid e × Falls (rank width nodes) e) edges
    → All (λ n. rank width nodes n.key < fuel) ns
    → validate_closures fuel edges ns ≡ accepted
unfolding validate_closures
closures_accept width fuel nodes edges [] h low = refl
closures_accept width fuel nodes edges (n ∷ ns) h (l, low) =
    let (s, e) = visit-Ends (rank width nodes) fuel edges n n (n ∷ []) [] h l in
    rw (ended s e, validate_closures) (closures_accept width fuel nodes edges ns h low)
  where
    ended :
        (s : List String)
        → visit fuel edges n n (n ∷ []) [] ≡ Verdict.visited s
        → validate_dependency_closure fuel edges n ≡ Verdict.visited s
    ended s e = unfold validate_dependency_closure in e

index_nodes-All :
    (P : DependencyNode → Type 0) (m : Dict DependencyNode) (ns : List DependencyNode)
    → All (λ e. P e.1) m
    → All P ns
    → All (λ e. P e.1) (index_nodes m ns)
unfolding index_nodes
index_nodes-All P m [] h k = h
index_nodes-All P m (n ∷ ns) h (p, k) =
    index_nodes-All P (Dict.set n.key n m) ns (Dict.set-All (λ e. P e.1) n.key n m p h) k

values-All :
    (P : DependencyNode → Type 0) (m : Dict DependencyNode)
    → All (λ e. P e.1) m
    → All P (Dict.values m)
unfolding Dict.values
values-All P [] h = tt
values-All P ((k, n) ∷ m) (p, h) = (p, values-All P m h)

nothing : (k : String) → Dict.get k [] ≢ some visiting
unfolding Dict.get
nothing k e = cc

-- Over edges that lead down the rank no cycle is found.
acyclic_walks :
    (width fuel : ℕ) (nodes : List DependencyNode) (edges : List DependencyEdge)
    → All (Falls (rank width nodes)) edges
    → All (λ n. rank width nodes n.key < fuel) nodes
    → (done : Dict Acyclic.Mark) × (assert_acyclic fuel nodes edges ≡ walked done)
unfolding assert_acyclic graph_edges graph_nodes
acyclic_walks width fuel nodes edges h low =
    walk_all_completes (rank width nodes) fuel _ (Dict.values (graph_nodes nodes)) []
      (All-filter _ _ edges h)
      (values-All _ _ (index_nodes-All _ [] _ tt (All-filter _ _ nodes low))) nothing

-- A valid edge between listed nodes leads down the rank.
falls :
    (width fuel : ℕ) (nodes : List DependencyNode)
    → All (IsListed width fuel nodes) nodes
    → (e : DependencyEdge) → Joins nodes e × IsValid e
    → Falls (rank width nodes) e
falls width fuel nodes listed e ((c, p), v) =
    let at_c = All-In (IsListed width fuel nodes) nodes listed c in
    let at_p = All-In (IsListed width fuel nodes) nodes listed p in
    rw
      (
        rank-eq-place width fuel nodes e.consumer at_c,
        rank-eq-place width fuel nodes e.provider at_p,
      )
      (declared_before-place width e.provider e.consumer v.in_order at_p.narrow)

-- The edges that leave a listed node are valid, and so every edge is.
edges-IsValid :
    (edges : List DependencyEdge) (nodes : List DependencyNode)
    → All (λ n. All IsValid (outgoing n.key edges)) nodes
    → All (Joins nodes) edges
    → All IsValid edges
edges-IsValid edges nodes h j = All-tabulate IsValid edges λ e i.
    let at = All-In _ nodes h (All-In (Joins nodes) edges j i).0 in
    All-In IsValid (outgoing e.consumer.key edges) at (outgoing-In edges e i)

-- An inventory whose resources have keys of their own is accepted exactly if, for each reference that
-- some resource provides, the provider to which it is resolved stands wherever its consumer stands,
-- is enabled if the consumer is, and is declared before it; nothing is asked of a reference that no
-- resource provides, such as one to a filter. Fuel above the place of every node is enough for both
-- walks.
pub validate-eq-accepted_iff :
    (width walk_fuel fuel : ℕ) (nodes : List DependencyNode)
    → All (IsListed width walk_fuel nodes) nodes
    → All (IsListed width fuel nodes) nodes
    → (validate_resource_dependency_graph walk_fuel fuel nodes ≡ accepted)
      ↔ All IsValid (dependency_edges nodes)
unfolding validate_resource_dependency_graph
validate-eq-accepted_iff width walk_fuel fuel nodes listed listed' = (sound, complete)
  where
    low : (f : ℕ) → All (IsListed width f nodes) nodes → All (λ m. rank width nodes m.key < f) nodes
    low f l =
        All-map (IsListed width f nodes) (λ m. rank width nodes m.key < f)
          (λ m at. rw (rank-eq-place width f nodes m at) at.fuelled) nodes l

    closures :
        (w : Walk)
        → after_walk w (validate_closures fuel (dependency_edges nodes) (sort_nodes nodes))
          ≡ accepted
        → validate_closures fuel (dependency_edges nodes) (sort_nodes nodes) ≡ accepted
    closures (walked marks) e = e
    closures (Walk.cycle n) e = absurd (cc e)
    closures Walk.out_of_fuel e = absurd (cc e)

    sound :
        validate_resource_dependency_graph walk_fuel fuel nodes ≡ accepted
        → All IsValid (dependency_edges nodes)
    sound e =
        edges-IsValid (dependency_edges nodes) nodes
          ((sort_nodes-All _ nodes).1 (closures_sound fuel _ _ (closures _ e)))
          (dependency_edges-All nodes)

    complete :
        All IsValid (dependency_edges nodes)
        → validate_resource_dependency_graph walk_fuel fuel nodes ≡ accepted
    complete h =
        let down =
          All-map _ _ (falls width fuel nodes listed') _
            (All-zip _ _ _ (dependency_edges-All nodes) h) in
        let (done, e) =
          acyclic_walks width walk_fuel nodes (dependency_edges nodes) down
            (low walk_fuel listed) in
        rw (e, after_walk)
          (closures_accept width fuel nodes (dependency_edges nodes) (sort_nodes nodes)
            (All-zip _ _ _ h down) ((sort_nodes-All _ nodes).0 (low fuel listed')))
