-- ===== src/Graph/Sound.antt =====
-- The edges of src/bird-resource-dependencies.ts join nodes of the inventory, and what the closures
-- accept is valid.
use birdbox.Prelude.{
  ℕ, zero, suc, ◌≡◌, refl, String, Bool, Option, none, some, List, [], ◌∷◌, ◌++◌, arith, str_eq,
  or_else, find, any, All, All-append, In, first, later, In-filter, In-find, Option-cases,
  Bool-cases, inl, inr, Option-cases,
}
use birdbox.Graph.Closure.{
  Verdict, visited, scope_mismatch, disabled_provider, declared_later, out_of_fuel, Complaint,
  check_edge, then_visit, visit_edges, visit, validate_dependency_closure,
}
use birdbox.Graph.Edges.{
  DependencyNode, DependencyEdge, has_key, providers_of, resolve_provider, edge_for, add_edge,
  edges_from, edges_of, dependency_edges, outgoing,
}
use birdbox.Graph.Scope.{resource_scope_contains}
use birdbox.Graph.Ranked.{IsValid, check_edge_sound}

-- The provider is one of the candidates.
pub resolve_provider-In :
    (consumer c : DependencyNode) (cs : List DependencyNode)
    → In (resolve_provider consumer c cs) (c ∷ cs)
unfolding resolve_provider
resolve_provider-In consumer c cs =
    chosen (find fits (c ∷ cs)) (find (has_key consumer.key) (c ∷ cs))
      (λ x e. In-find fits (c ∷ cs) e) (λ x e. In-find (has_key consumer.key) (c ∷ cs) e)
  where
    fits : DependencyNode → Bool
    fits x = resource_scope_contains x.scope consumer.scope

    chosen :
        (o o' : Option DependencyNode)
        → ((x : DependencyNode) → o ≡ some x → In x (c ∷ cs))
        → ((x : DependencyNode) → o' ≡ some x → In x (c ∷ cs))
        → In (or_else o (or_else o' c)) (c ∷ cs)
    chosen (some x) o' f g = f x refl
    chosen none (some x) f g = g x refl
    chosen none none f g = first refl

abbrev pub Joins : List DependencyNode → DependencyEdge → Type 0
Joins nodes e = In e.consumer nodes × In e.provider nodes

pub add_edge-All :
    (P : DependencyEdge → Type 0) (e : DependencyEdge) (edges : List DependencyEdge)
    → P e
    → All P edges
    → All P (add_edge (some e) edges)
unfolding add_edge
add_edge-All P e edges p h =
    elim (Bool-cases (any (λ d. str_eq d.provider.key e.provider.key) edges)) [
      | inl old ↦ rw (old, add_edge) h
      | inr new ↦ rw (new, add_edge) (All-append P edges (e ∷ []) h (p, tt))
    ]

edge_for-All :
    (nodes : List DependencyNode) (consumer : DependencyNode) (symbol : String)
    (cs : List DependencyNode) (edges : List DependencyEdge)
    → ((x : DependencyNode) → In x cs → In x nodes)
    → In consumer nodes
    → All (Joins nodes) edges
    → All (Joins nodes) (add_edge (edge_for consumer symbol cs) edges)
unfolding add_edge
edge_for-All nodes consumer symbol [] edges sub c h = h
edge_for-All nodes consumer symbol (p ∷ ps) edges sub c h =
    add_edge-All (Joins nodes) _ edges (c, sub _ (resolve_provider-In consumer p ps)) h

edges_from-All :
    (nodes : List DependencyNode) (consumer : DependencyNode) (symbols : List String)
    (edges : List DependencyEdge)
    → In consumer nodes
    → All (Joins nodes) edges
    → All (Joins nodes) (edges_from nodes consumer symbols edges)
unfolding edges_from providers_of
edges_from-All nodes consumer [] edges c h = h
edges_from-All nodes consumer (s ∷ ss) edges c h =
    edges_from-All nodes consumer ss _ c
      (edge_for-All nodes consumer s (providers_of s nodes) edges (λ x i. In-filter _ nodes i) c h)

edges_of-All :
    (nodes consumers : List DependencyNode)
    → ((x : DependencyNode) → In x consumers → In x nodes)
    → All (Joins nodes) (edges_of nodes consumers)
unfolding edges_of
edges_of-All nodes [] sub = tt
edges_of-All nodes (c ∷ cs) sub =
    All-append (Joins nodes) _ _ (edges_from-All nodes c c.references [] (sub c (first refl)) tt)
      (edges_of-All nodes cs (λ x i. sub x (later i)))

pub dependency_edges-All :
    (nodes : List DependencyNode) → All (Joins nodes) (dependency_edges nodes)
unfolding dependency_edges
dependency_edges-All nodes = edges_of-All nodes nodes (λ x i. i)

then_visit-visited :
    (v : Verdict) (k : List String → Verdict) {s : List String}
    → then_visit v k ≡ visited s
    → (mid : List String) × (k mid ≡ visited s)
unfolding then_visit
then_visit-visited (visited mid) k e = (mid, e)
then_visit-visited (scope_mismatch c) k e = absurd (cc e)
then_visit-visited (disabled_provider c) k e = absurd (cc e)
then_visit-visited (declared_later c) k e = absurd (cc e)
then_visit-visited out_of_fuel k e = absurd (cc e)

visit_edges_sound :
    (visit_one : DependencyNode → List DependencyNode → List String → Verdict)
    (root : DependencyNode) (path : List DependencyNode) (es : List DependencyEdge)
    (seen : List String) {s : List String}
    → visit_edges visit_one root path es seen ≡ visited s
    → All IsValid es
unfolding visit_edges
visit_edges_sound visit_one root path [] seen e = tt
visit_edges_sound visit_one root path (x ∷ xs) seen {s} e =
    let complaint : Complaint = record { root = root; edge = x; path = path ++ x.provider ∷ [] } in
    elim (Option-cases (check_edge complaint)) [
      | inl good ↦
          let (mid, rest) = then_visit-visited _ _ (rw (good, visit_edges) at e) in
          (check_edge_sound complaint good, visit_edges_sound visit_one root path xs mid rest)
      | inr (bad, found) ↦ absurd (failed complaint bad found (rw (found, visit_edges) at e))
    ]
  where
    failed : (c : Complaint) (v : Verdict) → check_edge c ≡ some v → v ≡ visited s → ⊥
    failed c v found same = unfold check_edge in ground arith

-- A closure that finds no fault has checked the root's own edges.
pub closure_sound :
    (fuel : ℕ) (edges : List DependencyEdge) (root : DependencyNode) {s : List String}
    → validate_dependency_closure fuel edges root ≡ visited s
    → All IsValid (outgoing root.key edges)
unfolding validate_dependency_closure visit
closure_sound zero edges root e = absurd (cc e)
closure_sound (suc fuel) edges root e = visit_edges_sound (visit fuel edges root) root _ _ _ e
