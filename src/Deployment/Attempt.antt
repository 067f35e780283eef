-- ===== src/Deployment/Attempt.antt =====
-- One attempt of `mutateAndApply` in src/deployment-service.ts, up to its commit.
use birdbox.Prelude.{String, true, false, Option, none, some, List, [], ◌∷◌, ◌++◌, str_eq, find}
use birdbox.Prelude.Text.{Text, units}
use birdbox.Deployment.State.{
  ManagedNode, Inventory, ConfigBundle, Active, Failure, Result, ok, err, ◌>>=◌, Answer, replied,
  threw, failure_of, plain_failure, first_text, Call, stages, applies,
}
use birdbox.Deployment.Script.{Script, Plan}
use birdbox.Deployment.Targets.{unique_ids}

-- A failure, with the node at which it struck.
pub record Blame : Type 0 where
  pub node_id : Option String
  pub failure : Failure

pub record Staged : Type 0 where
  pub calls : List Call
  pub blame : Option Blame

-- The nodes for which `applyStagedConfig` was called, the last one first, and those that are done.
pub record Applied : Type 0 where
  pub attempted : List ManagedNode
  pub done : List ManagedNode
  pub calls : List Call
  pub blame : Option Blame

abbrev pub blame_at : ManagedNode → Failure → Blame
blame_at n f = record { node_id = some n.id; failure = f }

abbrev pub blame_none : Failure → Blame
blame_none f = record { node_id = none; failure = f }

-- A candidate that BIRD refuses is an error of the caller's, with a text of its own.
unfoldable pub stage_failure :
    (Text → Text → Text → Text) → ManagedNode → ConfigBundle → Answer → Option Failure
stage_failure validation_error n config (replied true stderr stdout) = none
stage_failure validation_error n config (replied false stderr stdout) = some (
    plain_failure (
      validation_error config.main (first_text stderr stdout [])
        (n.name ++ units " 的 BIRD 语法检查失败")))
stage_failure validation_error n config (threw f) = some f

module _ {Rest : Type 0} where
  unfoldable pub stage_all :
      (Text → Text → Text → Text)
      → (ManagedNode → ConfigBundle)
      → Script Rest
      → List ManagedNode
      → Staged
  stage_all validation_error config_of sc [] = record { calls = []; blame = none }
  stage_all validation_error config_of sc (n ∷ ns) =
      let rest = stage_all validation_error config_of sc ns in
      elim (stage_failure validation_error n (config_of n) (sc.stage n (config_of n))) [
        | some f ↦ record { calls = stages n (config_of n) ∷ []; blame = some (blame_at n f) }
        | none ↦ record { calls = stages n (config_of n) ∷ rest.calls; blame = rest.blame }
      ]

  -- The command, and the hook behind it.
  unfoldable pub apply_failure : Script Rest → ManagedNode → ConfigBundle → Option Failure
  apply_failure sc n config =
      elim (failure_of (n.name ++ units " 的 BIRD 配置应用失败") (sc.apply n config)) [
        | some f ↦ some f
        | none ↦ sc.apply_hook n
      ]

  unfoldable pub apply_all :
      (ManagedNode → ConfigBundle)
      → Script Rest
      → List ManagedNode
      → List ManagedNode
      → List ManagedNode
      → Applied
  apply_all config_of sc attempted done [] = record {
    attempted = attempted;
    done = done;
    calls = [];
    blame = none;
  }
  apply_all config_of sc attempted done (n ∷ ns) =
      let rest = apply_all config_of sc (n ∷ attempted) (n ∷ done) ns in
      elim (apply_failure sc n (config_of n)) [
        | some f ↦ record {
          attempted = n ∷ attempted;
          done = done;
          calls = applies n (config_of n) ∷ [];
          blame = some (blame_at n f);
        }
        | none ↦ record rest { calls = applies n (config_of n) ∷ rest.calls }
      ]

  unfoldable pub find_nodes :
      (Inventory Rest → String → Result ManagedNode)
      → Inventory Rest
      → List String
      → Result (List ManagedNode)
  find_nodes find_node inventory [] = ok []
  find_nodes find_node inventory (id ∷ ids) =
      find_node inventory id >>= λ n. find_nodes find_node inventory ids >>= λ ns. ok (n ∷ ns)

  -- The config of the journal's target, or one that is made again.
  unfoldable pub config_from :
      Option (Active Rest) → (ManagedNode → ConfigBundle) → ManagedNode → ConfigBundle
  config_from none otherwise n = otherwise n
  config_from (some a) otherwise n = elim (find (λ t. str_eq t.node.id n.id) a.forward_targets) [
    | some t ↦ t.config
    | none ↦ otherwise n
  ]

pub record Draft (Rest A : Type 0) : Type 0 where
  pub current : Inventory Rest
  pub inventory : Inventory Rest
  pub mutation : A
  pub node_ids : List String
  pub nodes : List ManagedNode

-- All that comes before the first command.
unfoldable pub prepare : {Rest A : Type 0} → Plan Rest A → Script Rest → Result (Draft Rest A)
prepare p sc = elim sc.unreadable [
  | some f ↦ err f
  | none ↦ p.mutate sc.found >>= λ (draft, mutation). p.validate draft >>= λ inventory.
      let ids = unique_ids (p.node_ids_for_draft mutation inventory) in
      find_nodes p.find_node inventory ids >>= λ nodes. ok (record {
        current = sc.found;
        inventory = inventory;
        mutation = mutation;
        node_ids = ids;
        nodes = nodes;
      })
]
