-- ===== src/Graph/Inventory.antt =====
-- The resources of packages/contracts/src/inventory.ts, as far as src/bird-resource-dependencies.ts
-- reads them. A source is its UTF-16 units.
use birdbox.Prelude.{String, Bool, Option, List}
use birdbox.Prelude.Text.{Text}

-- A piece of source has a declaration of its own; an expression has not, and the ranges of a define
-- are no source at all.
pub data Content : Type 0 where
  source expression : Text → Content
  cidr : Content

pub record PolicyResource : Type 0 where
  pub id : String
  pub name : String
  pub enabled : Bool
  pub node_ids : Option (List String)
  pub content : Content

pub record RpkiSource : Type 0 where
  pub id : String
  pub name : String
  pub enabled : Bool
  pub node_ids : Option (List String)
  pub roa4_table : Option String
  pub roa6_table : Option String

-- The filters of a static protocol are their own pieces of source.
pub record StaticProtocol : Type 0 where
  pub id : String
  pub name : String
  pub enabled : Bool
  pub node_id : String
  pub raw : Text
  pub route_filters : List Text
  pub routes : Option (List Text)

pub record SourcePolicyEgress : Type 0 where
  pub id : String
  pub label : String
  pub enabled : Bool
  pub node_ids : Option (List String)
  pub internal_define_ids : List String

pub data PolicyMode : Type 0 where
  form combined custom : PolicyMode

pub data FormAction : Type 0 where
  all_routes no_routes cidr_routes : FormAction

-- A step calls the function of an id, or is the form.
pub data PolicyStep : Type 0 where
  calls : String → PolicyStep
  form_step : PolicyStep

pub record ChannelPolicy : Type 0 where
  pub mode : PolicyMode
  pub steps : List PolicyStep
  pub filter_id : Option String
  pub form_action : FormAction

pub record PipeProtocol : Type 0 where
  pub id : String
  pub name : String
  pub enabled : Bool
  pub node_ids : Option (List String)
  pub import_policy : ChannelPolicy
  pub export_policy : ChannelPolicy

-- What a node configuration says of one version of OSPF.
pub record OspfPolicies : Type 0 where
  pub import_policy : ChannelPolicy
  pub export_policy : ChannelPolicy
  pub export_define_id : Option String

pub record OspfNodeConfig : Type 0 where
  pub node_id : String
  pub enabled : Bool
  pub ospfv2 : OspfPolicies
  pub ospfv3 : OspfPolicies

pub record OspfDomain : Type 0 where
  pub id : String
  pub name : String
  pub node_configs : List OspfNodeConfig

pub record DependencyInventory : Type 0 where
  pub defines : List PolicyResource
  pub functions : List PolicyResource
  pub filters : List PolicyResource
  pub rpki : List RpkiSource
  pub static_protocols : List StaticProtocol
  pub source_policies : List SourcePolicyEgress
  pub ospf_domains : List OspfDomain
  pub pipe_protocols : List PipeProtocol
