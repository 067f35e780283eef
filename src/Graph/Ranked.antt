-- ===== src/Graph/Ranked.antt =====
-- Both walks of src/bird-resource-dependencies.ts over edges that lead down a rank of the keys: they
-- end within their fuel, and find no fault.
use birdbox.Prelude.{
  ℕ, zero, suc, ◌≤◌, ◌<◌, ◌≡◌, ◌≢◌, refl, ap, String, true, none, some, List, [], ◌∷◌, ◌++◌, arith,
  str_eq, eq_iff, All, All-map, is_some, Option-cases, Bool-cases, inl, inr,
}
use birdbox.Prelude.Dict
use birdbox.Prelude.Dict.{Dict}
use birdbox.Graph.Acyclic.{
  Mark, visiting, complete, Walk, walked, walk, walk_edge, walk_edges, walk_all, then_walk,
}
use birdbox.Graph.Closure.{Verdict, visited, Complaint, check_edge, then_visit, visit_edges, visit}
use birdbox.Graph.Edges.{DependencyNode, DependencyEdge, outgoing, declared_before}
use birdbox.Graph.Scope.{resource_scope_contains, includes}

-- The provider stands wherever the consumer stands, is enabled if the consumer is, and is declared
-- before it.
pub record IsValid (e : DependencyEdge) : Type 0 where
  pub in_scope : resource_scope_contains e.provider.scope e.consumer.scope ≡ true
  pub enabled : e.consumer.enabled ≡ true → e.provider.enabled ≡ true
  pub in_order : declared_before e.provider e.consumer ≡ true

pub check_edge_of_IsValid : (c : Complaint) → IsValid c.edge → check_edge c ≡ none
unfolding check_edge
check_edge_of_IsValid c v = ground (arith, v.in_scope, v.in_order, v.enabled)

pub check_edge_sound : (c : Complaint) → check_edge c ≡ none → IsValid c.edge
unfolding check_edge
check_edge_sound c h = record {
  in_scope = ground arith;
  enabled = λ e. ground arith;
  in_order = ground arith;
}

-- An edge of the node leads to a provider, so the node's own edges are those of its key.
outgoing-All :
    (P : DependencyEdge → Type 0) (key : String) (edges : List DependencyEdge)
    → All P edges
    → All (λ e. (e.consumer.key ≡ key) × P e) (outgoing key edges)
unfolding outgoing
outgoing-All P key [] h = tt
outgoing-All P key (e ∷ es) (p, h) = elim (Bool-cases (str_eq e.consumer.key key)) [
  | inl same ↦ rw same (((eq_iff e.consumer.key key).0 same, p), outgoing-All P key es h)
  | inr differs ↦ rw differs (outgoing-All P key es h)
]

module _ (rank : String → ℕ) where
  -- A valid edge down the rank.
  abbrev pub Falls : DependencyEdge → Type 0
  Falls e = rank e.provider.key < rank e.consumer.key

  abbrev pub Ends : Verdict → Type 0
  Ends v = (seen : List String) × (v ≡ visited seen)

  visit_edges-Ends :
      (visit_one : DependencyNode → List DependencyNode → List String → Verdict)
      (root : DependencyNode) (path : List DependencyNode) (bound : ℕ)
      → ((n : DependencyNode) (p : List DependencyNode) (s : List String)
          → rank n.key < bound
          → Ends (visit_one n p s))
      → (es : List DependencyEdge) (seen : List String)
      → All (λ e. IsValid e × (rank e.provider.key < bound)) es
      → Ends (visit_edges visit_one root path es seen)
  unfolding visit_edges then_visit
  visit_edges-Ends visit_one root path bound v [] seen h = (seen, refl)
  visit_edges-Ends visit_one root path bound v (e ∷ es) seen ((valid, low), h) =
      let (seen', step) = v e.provider (path ++ e.provider ∷ []) seen low in
      let (last, rest) = visit_edges-Ends visit_one root path bound v es seen' h in
      (
        last,
        rw
            (
              check_edge_of_IsValid
                  (record { root = root; edge = e; path = path ++ e.provider ∷ [] }) valid,
              visit_edges,
            )
            (rw (step, then_visit) rest),
      )

  pub visit-Ends :
      (fuel : ℕ) (edges : List DependencyEdge) (root current : DependencyNode)
      (path : List DependencyNode) (seen : List String)
      → All (λ e. IsValid e × Falls e) edges
      → rank current.key < fuel
      → Ends (visit fuel edges root current path seen)
  unfolding visit
  visit-Ends zero edges root current path seen h low = absurd (omega arith)
  visit-Ends (suc fuel) edges root current path seen h low =
      elim (Bool-cases (includes seen current.key)) [
        | inl old ↦ (seen, rw (old, visit))
        | inr fresh ↦
            rw (fresh, visit)
              (visit_edges-Ends (visit fuel edges root) root path fuel
                (λ n p s l. visit-Ends fuel edges root n p s h l) (outgoing current.key edges)
                (seen ++ current.key ∷ [])
                (All-map _ _ lower _ (outgoing-All _ current.key edges h)))
      ]
    where
      lower :
          (e : DependencyEdge)
          → (e.consumer.key ≡ current.key) × (IsValid e × Falls e)
          → IsValid e × (rank e.provider.key < fuel)
      lower e (same, (valid, falls)) = (valid, omega (arith, ap rank same))

  -- What is being visited has a higher rank.
  abbrev IsAbove : ℕ → Dict Mark → Type 0
  IsAbove n marks = (k : String) → Dict.get k marks ≡ some visiting → n < rank k

  -- The walk succeeds, and leaves nothing more being visited.
  abbrev Completes : Dict Mark → Walk → Type 0
  Completes marks w =
      (done : Dict Mark) × (w ≡ walked done)
      × ((k : String) → Dict.get k done ≡ some visiting → Dict.get k marks ≡ some visiting)

  walk_edge-Completes :
      (walk_one : DependencyNode → Dict Mark → Walk) (bound : ℕ)
      → ((n : DependencyNode) (m : Dict Mark)
          → rank n.key < bound
          → IsAbove (rank n.key) m
          → Completes m (walk_one n m))
      → (p : DependencyNode) (marks : Dict Mark) → rank p.key < bound
      → ((k : String) → Dict.get k marks ≡ some visiting → bound ≤ rank k)
      → Completes marks (walk_edge walk_one p marks)
  unfolding walk_edge
  walk_edge-Completes walk_one bound w p marks low above =
      elim (Option-cases (Dict.get p.key marks)) [
        | inl e ↦ rw (e, walk_edge) (w p marks low (λ k h. lt-le_trans' low (above k h)))
        | inr (visiting, e) ↦ absurd (clash (above p.key e))
        | inr (complete, e) ↦ rw (e, walk_edge) (marks, refl, λ k h. h)
      ]
    where
      lt-le_trans' : {a b c : ℕ} → a < b → b ≤ c → a < c
      lt-le_trans' h k = omega arith

      clash : bound ≤ rank p.key → ⊥
      clash h = omega arith

  walk_edges-Completes :
      (walk_one : DependencyNode → Dict Mark → Walk) (bound : ℕ)
      → ((n : DependencyNode) (m : Dict Mark)
          → rank n.key < bound
          → IsAbove (rank n.key) m
          → Completes m (walk_one n m))
      → (es : List DependencyEdge) (marks : Dict Mark) → All (λ e. rank e.provider.key < bound) es
      → ((k : String) → Dict.get k marks ≡ some visiting → bound ≤ rank k)
      → Completes marks (walk_edges walk_one es marks)
  unfolding walk_edges then_walk
  walk_edges-Completes walk_one bound w [] marks h above = (marks, refl, λ k e. e)
  walk_edges-Completes walk_one bound w (e ∷ es) marks (low, h) above =
      let (mid, step, fewer) = walk_edge-Completes walk_one bound w e.provider marks low above in
      let (done, rest, fewer') =
        walk_edges-Completes walk_one bound w es mid h (λ k v. above k (fewer k v)) in
      (done, rw (step, walk_edges, then_walk) rest, λ k v. fewer k (fewer' k v))

  walk-Completes :
      (fuel : ℕ) (edges : List DependencyEdge) (node : DependencyNode) (marks : Dict Mark)
      → All Falls edges
      → rank node.key < fuel
      → IsAbove (rank node.key) marks
      → Completes marks (walk fuel edges node marks)
  unfolding walk then_walk
  walk-Completes zero edges node marks h low above = absurd (omega arith)
  walk-Completes (suc fuel) edges node marks h low above =
      let (done, step, fewer) =
        walk_edges-Completes (walk fuel edges) (rank node.key)
          (λ n m l a. walk-Completes fuel edges n m h (omega arith) a) (outgoing node.key edges)
          (Dict.set node.key visiting marks) (All-map _ _ lower _ (outgoing-All _ node.key edges h))
          at_least in
      (Dict.set node.key complete done, rw (step, walk, then_walk) refl, λ k v. left done fewer k v)
    where
      lower :
          (e : DependencyEdge)
          → (e.consumer.key ≡ node.key) × Falls e
          → rank e.provider.key < rank node.key
      lower e (same, falls) = omega (arith, ap rank same)

      at_least :
          (k : String)
          → Dict.get k (Dict.set node.key visiting marks) ≡ some visiting
          → rank node.key ≤ rank k
      at_least k v = elim (Bool-cases (str_eq node.key k)) [
        | inl same ↦ omega (arith, ap rank ((eq_iff node.key k).0 same))
        | inr differs ↦
            let found = above k (rw (Dict.get-set node.key k visiting marks, differs) at v) in
            omega arith
      ]

      left :
          (done : Dict Mark)
          → ((k : String)
              → Dict.get k done ≡ some visiting
              → Dict.get k (Dict.set node.key visiting marks) ≡ some visiting)
          → (k : String) → Dict.get k (Dict.set node.key complete done) ≡ some visiting
          → Dict.get k marks ≡ some visiting
      left done fewer k v = elim (Bool-cases (str_eq node.key k)) [
        | inl same ↦ absurd (cc (rw (Dict.get-set node.key k complete done, same) at v))
        | inr differs ↦
            rw (Dict.get-set node.key k visiting marks, differs) at
              (fewer k (rw (Dict.get-set node.key k complete done, differs) at v))
      ]

  pub walk_all_completes :
      (fuel : ℕ) (edges : List DependencyEdge) (ns : List DependencyNode) (marks : Dict Mark)
      → All Falls edges
      → All (λ n. rank n.key < fuel) ns
      → ((k : String) → Dict.get k marks ≢ some visiting)
      → (done : Dict Mark) × (walk_all fuel edges ns marks ≡ walked done)
  unfolding walk_all then_walk
  walk_all_completes fuel edges [] marks h low quiet = (marks, refl)
  walk_all_completes fuel edges (n ∷ ns) marks h (l, low) quiet =
      elim (Bool-cases (is_some (Dict.get n.key marks))) [
        | inl seen ↦
            let (done, rest) = walk_all_completes fuel edges ns marks h low quiet in
            (done, rw (seen, walk_all) rest)
        | inr new ↦
            let (mid, step, fewer) =
              walk-Completes fuel edges n marks h l (λ k v. absurd (quiet k v)) in
            let (done, rest) =
              walk_all_completes fuel edges ns mid h low (λ k v. quiet k (fewer k v)) in
            (done, rw (new, walk_all) (rw (step, then_walk) rest))
      ]
