-- ===== src/Graph/Nodes.antt =====
-- The nodes that src/bird-resource-dependencies.ts makes of an inventory.
use birdbox.Prelude.{
  ℕ, suc, ◌+◌, ◌*◌, String, Option, none, some, List, [], ◌∷◌, ◌++◌, map, str_eq, ◌==◌,
  if◌then◌else◌,
}
use Prim.Native.String.{◌++◌ as joined}
use Prim.Native.Char.{code}
use birdbox.Prelude.Dict
use birdbox.Prelude.Text.{Text}
use birdbox.Source.Identifiers.{bird_identifier_list}
use birdbox.Impact.{given_ids, into_set}
use birdbox.Graph.Scope.{single, multi}
use birdbox.Graph.Inventory.{
  source, expression, cidr, PolicyResource, RpkiSource, StaticProtocol, SourcePolicyEgress, form,
  combined, custom, all_routes, no_routes, cidr_routes, PolicyStep, calls, form_step, ChannelPolicy,
  PipeProtocol, OspfPolicies, OspfNodeConfig, OspfDomain, DependencyInventory,
}
use birdbox.Graph.Edges.{
  DependencyKind, DependencyNode, define, function, filter_kind, rpki, static_kind, source_policy,
  ospf, pipe,
}

-- A name is made of these; its units are turned into a text again.
abbrev name_characters : String
name_characters = "ABCDEFGHIJKLMNOPQRSTUVWXYZabcdefghijklmnopqrstuvwxyz0123456789_"

unfoldable pub with_unit : ℕ → String → String → String
with_unit u String.[] rest = rest
with_unit u (String.◌∷◌ c cs) rest = if code c == u then String.◌∷◌ c rest else with_unit u cs rest

unfoldable pub name_of : Text → String
name_of [] = ""
name_of (u ∷ us) = with_unit u name_characters (name_of us)

unfoldable pub identifiers : Text → List String
identifiers text = map name_of (bird_identifier_list text)

abbrev pub set_of : List String → List String
set_of names = into_set [] names

-- `identifiers.splice(identifiers.indexOf(name), 1)`, where the name is there.
unfoldable pub without_first : String → List String → List String
without_first name [] = []
without_first name (x ∷ xs) = if str_eq x name then xs else x ∷ without_first name xs

unfoldable pub source_references : PolicyResource → List String
source_references resource = elim resource.content [
  | cidr ↦ []
  | expression text ↦ set_of (identifiers text)
  | source text ↦ set_of (without_first resource.name (identifiers text))
]

abbrev kind_text : DependencyKind → String
kind_text define = "Define"
kind_text function = "Function"
kind_text filter_kind = "Filter"
kind_text rpki = "RPKI"
kind_text static_kind = "Static"
kind_text source_policy = "SourcePolicy"
kind_text ospf = "OSPF"
kind_text pipe = "Pipe"

unfoldable pub key_of : DependencyKind → String → String
key_of kind id = joined (kind_text kind) (joined ":" id)

abbrev symbols_of : DependencyKind → String → List String
symbols_of filter_kind name = []
symbols_of kind name = name ∷ []

unfoldable pub policy_node : DependencyKind → ℕ → ℕ → PolicyResource → DependencyNode
policy_node kind phase index resource = record {
  key = key_of kind resource.id;
  kind = kind;
  name = resource.name;
  enabled = resource.enabled;
  scope = multi resource.node_ids;
  phase = phase;
  index = index;
  references = source_references resource;
  provided_symbols = symbols_of kind resource.name;
}

-- The names that are there.
unfoldable pub present : List (Option String) → List String
present [] = []
present (none ∷ names) = present names
present (some name ∷ names) = name ∷ present names

unfoldable pub rpki_node : ℕ → RpkiSource → DependencyNode
rpki_node index resource = record {
  key = key_of rpki resource.id;
  kind = rpki;
  name = resource.name;
  enabled = resource.enabled;
  scope = multi resource.node_ids;
  phase = 1;
  index = index;
  references = [];
  provided_symbols =
      set_of (present (some resource.name ∷ resource.roa4_table ∷ resource.roa6_table ∷ []));
}

unfoldable pub identifiers_of_all : List Text → List String
identifiers_of_all [] = []
identifiers_of_all (text ∷ texts) = identifiers text ++ identifiers_of_all texts

abbrev or_no_routes : Option (List Text) → List Text
or_no_routes none = []
or_no_routes (some routes) = routes

unfoldable pub static_node : ℕ → StaticProtocol → DependencyNode
static_node index resource = record {
  key = key_of static_kind resource.id;
  kind = static_kind;
  name = resource.name;
  enabled = resource.enabled;
  scope = single (some resource.node_id);
  phase = 4;
  index = index;
  references =
      set_of (
        identifiers_of_all (resource.raw ∷ resource.route_filters ++ or_no_routes resource.routes));
  provided_symbols = [];
}

unfoldable pub source_policy_node : Dict.Dict String → ℕ → SourcePolicyEgress → DependencyNode
source_policy_node define_names index resource = record {
  key = key_of source_policy resource.id;
  kind = source_policy;
  name = resource.label;
  enabled = resource.enabled;
  scope = multi resource.node_ids;
  phase = 4;
  index = index;
  references =
      set_of (given_ids (map (λ id. Dict.get id define_names) resource.internal_define_ids));
  provided_symbols = [];
}

-- The names, by id, of the functions, the filters and the defines.
pub record Names : Type 0 where
  pub functions : Dict.Dict String
  pub filters : Dict.Dict String
  pub defines : Dict.Dict String

-- An id that is missing or empty names nothing.
unfoldable pub name_at : Dict.Dict String → Option String → Option String
name_at names none = none
name_at names (some id) = if str_eq id "" then none else Dict.get id names

unfoldable pub step_names : Dict.Dict String → List PolicyStep → List (Option String)
step_names functions [] = []
step_names functions (calls id ∷ steps) = Dict.get id functions ∷ step_names functions steps
step_names functions (form_step ∷ steps) = step_names functions steps

unfoldable pub policy_names : Names → ChannelPolicy → List (Option String)
policy_names names policy = elim policy.mode [
  | form ↦ []
  | custom ↦ name_at names.filters policy.filter_id ∷ []
  | combined ↦ step_names names.functions policy.steps
]

abbrev exports_define : ChannelPolicy → Option String → Option String
exports_define policy define_id = elim policy.mode [
  | custom ↦ none
  | form ↦ elim policy.form_action [
    | all_routes ↦ none
    | no_routes ↦ none
    | cidr_routes ↦ define_id
  ]
  | combined ↦ elim policy.form_action [
    | all_routes ↦ none
    | no_routes ↦ none
    | cidr_routes ↦ define_id
  ]
]

unfoldable pub version_names : Names → OspfPolicies → List (Option String)
version_names names policies =
    name_at names.defines (exports_define policies.export_policy policies.export_define_id)
      ∷ policy_names names policies.import_policy
    ++ policy_names names policies.export_policy

unfoldable pub ospf_references : Names → OspfNodeConfig → List String
ospf_references names config =
    if config.enabled
    then set_of (given_ids (version_names names config.ospfv2 ++ version_names names config.ospfv3))
    else []

unfoldable pub ospf_node : Names → OspfDomain → ℕ → ℕ → OspfNodeConfig → DependencyNode
ospf_node names domain domain_index config_index config = record {
  key = key_of ospf (joined domain.id (joined ":" config.node_id));
  kind = ospf;
  name = joined domain.name (joined " (" (joined config.node_id ")"));
  enabled = config.enabled;
  scope = single (some config.node_id);
  phase = 4;
  index = domain_index * 100000 + config_index;
  references = ospf_references names config;
  provided_symbols = [];
}

-- `xs.map((x, index) => f(index, x))`, the indexes counted from the first number on.
unfoldable pub map_from {ℓ κ} : {A : Type ℓ} {B : Type κ} → ℕ → (ℕ → A → B) → List A → List B
map_from n f [] = []
map_from n f (x ∷ xs) = f n x ∷ map_from (suc n) f xs

unfoldable pub ospf_nodes : Names → ℕ → List OspfDomain → List DependencyNode
ospf_nodes names n [] = []
ospf_nodes names n (domain ∷ domains) =
    map_from 0 (ospf_node names domain n) domain.node_configs ++ ospf_nodes names (suc n) domains

unfoldable pub pipe_node : Names → ℕ → PipeProtocol → DependencyNode
pipe_node names index resource = record {
  key = key_of pipe resource.id;
  kind = pipe;
  name = resource.name;
  enabled = resource.enabled;
  scope = multi resource.node_ids;
  phase = 4;
  index = index;
  references = set_of (
      given_ids
        (policy_names names resource.import_policy ++ policy_names names resource.export_policy));
  provided_symbols = [];
}

-- `new Map(resources.map((resource) => [resource.id, resource.name]))`
unfoldable pub names_from : Dict.Dict String → List PolicyResource → Dict.Dict String
names_from names [] = names
names_from names (resource ∷ resources) =
    names_from (Dict.set resource.id resource.name names) resources

unfoldable pub dependency_nodes : DependencyInventory → List DependencyNode
dependency_nodes inventory =
    let names : Names = record {
      functions = names_from [] inventory.functions;
      filters = names_from [] inventory.filters;
      defines = names_from [] inventory.defines;
    } in
    map_from 0 (policy_node define 0) inventory.defines
    ++ (map_from 0 rpki_node inventory.rpki
        ++ (map_from 0 (policy_node function 2) inventory.functions
            ++ (map_from 0 (policy_node filter_kind 3) inventory.filters
                ++ (map_from 0 (pipe_node names) inventory.pipe_protocols
                    ++ (map_from 0 static_node inventory.static_protocols
                        ++ (map_from 0 (source_policy_node names.defines) inventory.source_policies
                            ++ ospf_nodes names 0 inventory.ospf_domains))))))
