-- ===== src/Deployment/Targets.antt =====
-- What each node is to get: `#targets`, `#markRemovedResources` and `#report` of
-- src/deployment-service.ts.
use birdbox.Prelude.{
  String, true, false, not, Option, none, some, List, [], ◌∷◌, map, str_eq, if◌then◌else◌, filter,
  find,
}
use birdbox.Prelude.Text.{units}
use birdbox.Impact.{has_id, unique_node_ids}
use birdbox.Deployment.State.{
  ManagedNode, Inventory, ResourceFile, ConfigBundle, Target, Result, ok, err, ◌>>=◌, plain_failure,
  Report, success,
}

-- `new Map(nodes.map((node) => [node.id, node])).get(id)`: the last of an id.
unfoldable pub last_node : String → List ManagedNode → Option ManagedNode
last_node id [] = none
last_node id (n ∷ ns) = elim (last_node id ns) [
  | some m ↦ some m
  | none ↦ if str_eq n.id id then some n else none
]

abbrev pub unique_ids : List String → List String
unique_ids ids = unique_node_ids (map some ids)

module _ {Rest : Type 0} (config_for_node : Inventory Rest → ManagedNode → ConfigBundle)
    (empty_config_for_node : ManagedNode → ConfigBundle) where
  unfoldable pub target_for : Inventory Rest → List ManagedNode → String → Result Target
  target_for inventory fallback_nodes id = elim (find (λ n. str_eq n.id id) inventory.nodes) [
    | some n ↦ ok (record { node = n; config = config_for_node inventory n })
    | none ↦ elim (last_node id fallback_nodes) [
      | some n ↦ ok (record { node = n; config = empty_config_for_node n })
      | none ↦ err (plain_failure (units "部署日志无法解析节点"))
    ]
  ]

  unfoldable pub targets_for :
      Inventory Rest → List ManagedNode → List String → Result (List Target)
  targets_for inventory fallback_nodes [] = ok []
  targets_for inventory fallback_nodes (id ∷ ids) = target_for inventory fallback_nodes id >>= λ t.
      targets_for inventory fallback_nodes ids >>= λ ts. ok (t ∷ ts)

  unfoldable pub targets : Inventory Rest → List String → List ManagedNode → Result (List Target)
  targets inventory ids fallback_nodes = targets_for inventory fallback_nodes (unique_ids ids)

unfoldable pub last_target : String → List Target → Option Target
last_target id [] = none
last_target id (t ∷ ts) = elim (last_target id ts) [
  | some u ↦ some u
  | none ↦ if str_eq t.node.id id then some t else none
]

abbrev pub paths : List ResourceFile → List String
paths files = map (λ f. f.relative_path) files

abbrev previous_paths : Option Target → List String
previous_paths none = []
previous_paths (some t) = paths t.config.resources

-- Files of the node that the other side has and this one has not.
unfoldable pub mark_removed_resources : List Target → List Target → List Target
mark_removed_resources [] previous = []
mark_removed_resources (t ∷ ts) previous =
    record t {
      config = record (t.config) {
        removed_resources =
            filter (λ p. not (has_id p (paths t.config.resources)))
              (previous_paths (last_target t.node.id previous));
      };
    }
    ∷ mark_removed_resources ts previous

unfoldable pub report : {Rest : Type 0} → Inventory Rest → List String → String → Report
report inventory node_ids transaction_id =
    let ids = unique_ids node_ids in
    record {
      applied = true;
      transaction_id = some transaction_id;
      node_ids = ids;
      nodes = map (λ n. (n.id, n.name)) (filter (λ n. has_id n.id ids) inventory.nodes);
      node_results = map (λ id. record { node_id = id; status = success; error = none }) ids;
      rollback_attempted = false;
      rollback_succeeded = true;
      sessions = filter (λ s. has_id s.node_id ids) inventory.sessions;
    }
