-- ===== src/Graph/Tests.antt =====
-- Runs of the model of src/bird-resource-dependencies.ts, and its theorems at concrete inputs.
use birdbox.Prelude.Text.{units}
use birdbox.Graph.Inventory.{
  PolicyResource, ChannelPolicy, DependencyInventory, cidr, source, form, combined, all_routes,
  no_routes, calls,
}
use birdbox.Source.Identifiers.{bird_identifier_list, words, scan, step, finish, closed_symbol}
use birdbox.Impact.{given_ids, into_set}
use birdbox.Graph.Nodes.{
  dependency_nodes, policy_node, source_references, without_first, identifiers, name_of, with_unit,
  key_of, map_from, names_from, pipe_node, policy_names, step_names, ospf_nodes, rpki_node,
  static_node, source_policy_node,
}
use birdbox.Graph.Kinds.{Stands, provides, dependency_edges-Stands}
use birdbox.Prelude.{◌≡◌, ◌↔◌, refl, true, none, some, List, [], ◌∷◌, arith, All, map, String}
use birdbox.Prelude.Dict
use birdbox.Graph.Accepts.{IsListed, validate-eq-accepted_iff}
use birdbox.Graph.Acyclic.{
  assert_acyclic, graph_edges, graph_nodes, index_nodes, is_static, walk, walk_all, walk_edges,
  walk_edge, then_walk,
}
use birdbox.Graph.Closure.{check_edge, then_visit, visit_edges, visit, validate_dependency_closure}
use birdbox.Graph.Coverage.{Covers, resource_scope_contains_iff}
use birdbox.Graph.Edges.{
  DependencyNode, define, function, providers_of, resolve_provider, add_edge, edges_from, edges_of,
  dependency_edges, outgoing, declared_before,
}
use birdbox.Graph.Ranked.{IsValid}
use birdbox.Graph.Scope.{single, multi, scoped_node_ids, resource_scope_contains}
use birdbox.Graph.Validate.{
  Validation, accepted, insert_node, sort_nodes, comes_first, validate_closures,
  validate_resource_dependency_graph,
}

abbrev net_define : DependencyNode
net_define = record {
  key = "Define:1";
  kind = define;
  name = "NET";
  enabled = true;
  scope = multi none;
  phase = 0;
  index = 0;
  references = [];
  provided_symbols = "NET" ∷ [];
}

abbrev net_function : DependencyNode
net_function = record {
  key = "Function:1";
  kind = function;
  name = "is_net";
  enabled = true;
  scope = single (some "a");
  phase = 2;
  index = 0;
  references = "NET" ∷ "bgp_path" ∷ [];
  provided_symbols = "is_net" ∷ [];
}

abbrev inventory : List DependencyNode
inventory = net_define ∷ net_function ∷ []

graph_runs : Unit {0}
unfolding assert_acyclic graph_edges graph_nodes index_nodes is_static walk walk_all walk_edges
    walk_edge then_walk check_edge then_visit visit_edges visit validate_dependency_closure
    providers_of resolve_provider add_edge edges_from edges_of dependency_edges outgoing
    declared_before insert_node sort_nodes comes_first validate_closures
    validate_resource_dependency_graph scoped_node_ids resource_scope_contains Dict.get Dict.set
    Dict.values
graph_runs = tt

inventory_accepted : validate_resource_dependency_graph 9 9 inventory ≡ accepted
unfolding graph_runs
inventory_accepted = refl

-- A define that names a function of a later phase closes a cycle, which is what is reported.
cycle_reported :
    validate_resource_dependency_graph 9 9
      (record net_define { references = "is_net" ∷ [] } ∷ net_function ∷ [])
    ≡ Validation.cyclic (record net_define { references = "is_net" ∷ [] })
unfolding graph_runs
cycle_reported = refl

inventory-IsListed : All (IsListed 4 9 inventory) inventory
inventory-IsListed = (
  record { unique = refl; narrow = omega arith; fuelled = omega arith },
  (record { unique = refl; narrow = omega arith; fuelled = omega arith }, tt),
)

validate-eq-accepted_iff_example :
    (validate_resource_dependency_graph 9 9 inventory ≡ accepted)
    ↔ All IsValid (dependency_edges inventory)
validate-eq-accepted_iff_example =
    validate-eq-accepted_iff 4 9 9 inventory inventory-IsListed inventory-IsListed

resource_scope_contains_iff_example :
    (resource_scope_contains (multi (some ("a" ∷ "b" ∷ []))) (single (some "a")) ≡ true)
    ↔ Covers (multi (some ("a" ∷ "b" ∷ []))) (single (some "a"))
unfolding scoped_node_ids
resource_scope_contains_iff_example =
    resource_scope_contains_iff (multi (some ("a" ∷ "b" ∷ []))) (single (some "a")) ("a" ∷ []) refl

abbrev lan : PolicyResource
lan = record { id = "1"; name = "LAN"; enabled = true; node_ids = none; content = cidr }

abbrev is_lan : PolicyResource
is_lan = record {
  id = "2";
  name = "is_lan";
  enabled = true;
  node_ids = none;
  content = source (units "function is_lan() { return net ~ LAN; }");
}

abbrev open_policy : ChannelPolicy
open_policy = record { mode = form; steps = []; filter_id = none; form_action = all_routes }

abbrev calling_policy : ChannelPolicy
calling_policy = record {
  mode = combined;
  steps = calls "2" ∷ [];
  filter_id = none;
  form_action = no_routes;
}

abbrev small_inventory : DependencyInventory
small_inventory = record {
  defines = lan ∷ [];
  functions = is_lan ∷ [];
  filters = [];
  rpki = [];
  static_protocols = [];
  source_policies = [];
  ospf_domains = [];
  pipe_protocols =
      record {
        id = "3";
        name = "p";
        enabled = true;
        node_ids = none;
        import_policy = open_policy;
        export_policy = calling_policy;
      }
      ∷ [];
}

small_edges :
    map {B = String × String}
      (λ e. (e.consumer.key, e.provider.key))
      (dependency_edges (dependency_nodes small_inventory))
    ≡ ("Function:2", "Define:1") ∷ ("Pipe:3", "Function:2") ∷ []
unfolding dependency_edges edges_of edges_from providers_of resolve_provider add_edge
    scoped_node_ids resource_scope_contains dependency_nodes policy_node source_references
    without_first identifiers name_of with_unit key_of map_from names_from Dict.set Dict.get
    pipe_node policy_names step_names ospf_nodes rpki_node static_node source_policy_node given_ids
    into_set bird_identifier_list words scan step finish closed_symbol units
small_edges = refl

dependency_edges-Stands_example :
    All
      (λ e. Stands (dependency_nodes small_inventory) e × (provides e.provider.kind ≡ true))
      (dependency_edges (dependency_nodes small_inventory))
dependency_edges-Stands_example = dependency_edges-Stands small_inventory
