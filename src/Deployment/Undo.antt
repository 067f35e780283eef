-- ===== src/Deployment/Undo.antt =====
-- How src/deployment-service.ts takes an attempt back that has failed before its commit.
use birdbox.Prelude.{
  String, Bool, true, false, not, is_some, ◌&&◌, Option, none, some, List, [], ◌∷◌, str_eq,
  if◌then◌else◌,
}
use birdbox.Prelude.Dict
use birdbox.Prelude.Text.{Text, units}
use birdbox.Deployment.State.{
  ManagedNode, ConfigBundle, Active, rollback, Failure, Write, replied, threw, first_text, Call,
  rolls_back, NodeResult, NodeStatus, rolled_back, unknown,
}
use birdbox.Deployment.Script.{Script}
use birdbox.Deployment.Journal.{set_journal_direction, clear_journal}
use birdbox.Deployment.Attempt.{Blame}

abbrev pub Results : Type 0
Results = Dict.Dict NodeResult

abbrev pub note : String → NodeStatus → Option Text → Results → Results
note id status error results =
    Dict.set id (record { node_id = id; status = status; error = error }) results

-- `escaped` is an exception of the rollback itself, which ends it.
pub record RolledBack : Type 0 where
  pub succeeded : Bool
  pub results : Results
  pub calls : List Call
  pub escaped : Option Failure

abbrev error_at : Blame → ManagedNode → Option Text
error_at blame n = elim blame.node_id [
  | none ↦ none
  | some id ↦ if str_eq id n.id then some (blame.failure.message) else none
]

-- The command and the hook of one node: whether both are well, and what is noted.
unfoldable pub undo_node :
    Blame → ManagedNode → Bool → Text → Text → Option Failure → Results → Bool × Results
undo_node blame n good stderr stdout hook results =
    let noted =
      if good
      then note n.id rolled_back (error_at blame n) results
      else note n.id unknown (some (first_text stderr stdout (units "节点回滚失败，需检查恢复日志"))) results in
    elim hook [ none ↦ (good, noted) | some f ↦ (false, note n.id unknown (some f.message) noted) ]

module _ {Rest : Type 0} where
  unfoldable pub roll_back_all :
      (ManagedNode → ConfigBundle) → Script Rest → Blame → Results → List ManagedNode → RolledBack
  roll_back_all config_of sc blame results [] = record {
    succeeded = true;
    results = results;
    calls = [];
    escaped = none;
  }
  roll_back_all config_of sc blame results (n ∷ ns) = elim (sc.roll_back n (config_of n)) [
    | threw f ↦ record {
      succeeded = false;
      results = results;
      calls = rolls_back n (config_of n) ∷ [];
      escaped = some f;
    }
    | replied good stderr stdout ↦
        let one = undo_node blame n good stderr stdout (sc.rollback_hook n) results in
        let rest = roll_back_all config_of sc blame one.1 ns in
        record rest {
          succeeded = one.0 && rest.succeeded;
          calls = rolls_back n (config_of n) ∷ rest.calls;
        }
  ]

  -- The mark on the journal: whether the service knows that it is there, and the stored journal.
  unfoldable pub mark_rollback :
      Write → Option (Active Rest) → Option (Active Rest) → Bool × Option (Active Rest)
  mark_rollback marks none stored = (false, stored)
  mark_rollback marks (some a) stored =
      let (now, thrown) = set_journal_direction marks a rollback stored in
      (not (is_some thrown), now)

  -- Whether no journal is left in the service's hand, and the stored journal.
  unfoldable pub close_journal :
      Write → Bool → Option (Active Rest) → Option (Active Rest) → Bool × Option (Active Rest)
  close_journal clears clean none stored = (true, stored)
  close_journal clears false (some a) stored = (false, stored)
  close_journal clears true (some a) stored =
      let (now, thrown) = clear_journal clears a stored in (not (is_some thrown), now)
