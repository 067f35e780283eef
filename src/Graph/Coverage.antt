-- ===== src/Graph/Coverage.antt =====
-- What `resourceScopeContains` of packages/contracts/src/resource-scope.ts means for the nodes.
use birdbox.Prelude.{
  ◌≡◌, ◌↔◌, refl, ap, String, Bool, true, Option, none, some, List, [], ◌∷◌, arith, str_eq, eq_iff,
  all, ◌||◌, false, Bool-cases, inl, inr,
}
use birdbox.Graph.Scope.{
  Scope, scoped_node_ids, resource_applies_to_node, resource_scope_contains, includes, applies_in,
  contains_ids,
}

-- A consumer that names its nodes is covered exactly if the provider stands on each of them.
abbrev pub Covers : Scope → Scope → Type 0
Covers provider consumer =
    (node : String)
    → resource_applies_to_node consumer node ≡ true
    → resource_applies_to_node provider node ≡ true

all-includes_sound :
    (ids wanted : List String)
    → all (includes ids) wanted ≡ true
    → (node : String) → includes wanted node ≡ true
    → includes ids node ≡ true
all-includes_sound ids [] h node i = absurd (cc i)
all-includes_sound ids (w ∷ ws) h node i = elim (Bool-cases (str_eq w node)) [
  | inl same ↦ rw (← (eq_iff w node).0 same) (ground arith)
  | inr differs ↦ all-includes_sound ids ws (ground arith) node (rw differs at i)
]

all-includes_complete :
    (ids wanted : List String)
    → ((node : String) → includes wanted node ≡ true → includes ids node ≡ true)
    → all (includes ids) wanted ≡ true
all-includes_complete ids [] f = refl
all-includes_complete ids (w ∷ ws) f =
    rw (f w (rw ((eq_iff w w).1 refl) refl))
      (all-includes_complete ids ws (λ node i. f node (rw i (or-true (str_eq w node)))))
  where
    or-true : (b : Bool) → (b || true) ≡ true
    or-true true = refl
    or-true false = refl

-- A provider contains the scope of a consumer that names its nodes exactly if it stands on every node
-- on which the consumer stands.
pub resource_scope_contains_iff :
    (provider consumer : Scope) (wanted : List String)
    → scoped_node_ids consumer ≡ some wanted
    → (resource_scope_contains provider consumer ≡ true) ↔ Covers provider consumer
unfolding resource_scope_contains resource_applies_to_node
resource_scope_contains_iff provider consumer wanted e = (
  (λ h node c. covered (scoped_node_ids provider) (rw e at h) node (rw (applied node) at c)),
  (λ f. rw e (complete (scoped_node_ids provider) (λ node i. f node (rw (applied node) i)))),
)
  where
    applied : (node : String) → applies_in (scoped_node_ids consumer) node ≡ includes wanted node
    applied node = ap (λ o. applies_in o node) e

    covered :
        (o : Option (List String))
        → contains_ids o (some wanted) ≡ true
        → (node : String) → includes wanted node ≡ true
        → applies_in o node ≡ true
    covered none h node i = refl
    covered (some ids) h node i = all-includes_sound ids wanted h node i

    complete :
        (o : Option (List String))
        → ((node : String) → includes wanted node ≡ true → applies_in o node ≡ true)
        → contains_ids o (some wanted) ≡ true
    complete none f = refl
    complete (some ids) f = all-includes_complete ids wanted f
