-- ===== src/Deployment/Recover.antt =====
-- `recover` of src/deployment-service.ts: a deployment that was interrupted is finished, or taken
-- back, as its journal says.
use birdbox.Prelude.{
  Bool, true, false, not, ◌&&◌, ◌||◌, Option, none, some, List, [], ◌∷◌, ◌++◌, if◌then◌else◌,
}
use birdbox.Prelude.Text.{Text, units}
use birdbox.Deployment.State.{
  ManagedNode, Inventory, ConfigBundle, Target, Direction, forward, rollback, Active, Failure,
  Result, ok, err, Write, Answer, failure_of, plain_failure, Call, stages, applies,
}
use birdbox.Deployment.Script.{Commit, World}
use birdbox.Deployment.Store.{replace_with}
use birdbox.Deployment.Journal.{clear_journal}

-- How the calls end. `same` is `isDeepStrictEqual`, and `normalize` the `normalizeInventory` of the
-- store.
pub record Replay (Rest : Type 0) : Type 0 where
  pub unreadable : Option Failure
  pub same : Inventory Rest → Inventory Rest → Bool
  pub stage : ManagedNode → ConfigBundle → Answer
  pub apply : ManagedNode → ConfigBundle → Answer
  pub recover_rules : ManagedNode → Inventory Rest → Inventory Rest → Option Failure
  pub normalize : Inventory Rest → Result (Inventory Rest)
  pub same_stored : Inventory Rest → Inventory Rest → Bool
  pub commit : Commit Rest
  pub clears : Write

abbrev pub first_failure : Option Failure → Option Failure → Option Failure
first_failure none next = next
first_failure (some f) next = some f

abbrev pub mismatch : Failure
mismatch = plain_failure (units "库存与未完成部署日志均不匹配；拒绝自动覆盖，请从备份恢复")

unfoldable pub send_all :
    (ManagedNode → ConfigBundle → Answer)
    → (ManagedNode → ConfigBundle → Call)
    → Text
    → List Target
    → List Call × Option Failure
send_all send call fallback [] = ([], none)
send_all send call fallback (t ∷ ts) =
    let rest = send_all send call fallback ts in
    elim (failure_of (t.node.name ++ fallback) (send t.node t.config)) [
      | some f ↦ (call t.node t.config ∷ [], some f)
      | none ↦ (call t.node t.config ∷ rest.0, rest.1)
    ]

abbrev pub is_rollback : Direction → Bool
is_rollback forward = false
is_rollback rollback = true

module _ {Rest : Type 0} where
  unfoldable pub desired_of : Active Rest → Inventory Rest
  desired_of a = elim a.direction [ forward ↦ a.after | rollback ↦ a.before ]

  unfoldable pub opposite_of : Active Rest → Inventory Rest
  opposite_of a = elim a.direction [ forward ↦ a.before | rollback ↦ a.after ]

  unfoldable pub targets_of : Active Rest → List Target
  targets_of a = elim a.direction [ forward ↦ a.forward_targets | rollback ↦ a.rollback_targets ]

  unfoldable pub rules_all :
      (ManagedNode → Inventory Rest → Inventory Rest → Option Failure)
      → Inventory Rest
      → Inventory Rest
      → List Target
      → Option Failure
  rules_all rules desired opposite [] = none
  rules_all rules desired opposite (t ∷ ts) =
      let rest = rules_all rules desired opposite ts in
      first_failure (rules t.node desired opposite) rest

module _ {Rest : Type 0} (y : Replay Rest) where
  -- Both rounds of commands: the second is sent only if the first went well.
  unfoldable pub replay_targets : List Target → List Call × Option Failure
  replay_targets ts =
      let staged = send_all y.stage stages (units " 的恢复配置检查失败") ts in
      let applied = send_all y.apply applies (units " 的恢复配置应用失败") ts in
      elim staged.1 [ some f ↦ staged | none ↦ (staged.0 ++ applied.0, applied.1) ]

  unfoldable pub needs_replay : Active Rest → Inventory Rest → Bool
  needs_replay a actual = is_rollback a.direction || not (y.same actual (desired_of a))

  unfoldable pub write_desired : Active Rest → Inventory Rest → Inventory Rest × Option Failure
  write_desired a actual =
      if y.same actual (desired_of a) then (actual, none) else elim (y.normalize (desired_of a)) [
        | err f ↦ (actual, some f)
        | ok normalized ↦ replace_with y.same_stored y.commit actual normalized
      ]

  -- The store and the journal, once the nodes are done.
  unfoldable pub close_recovery : Active Rest → World Rest → World Rest × Option Failure
  close_recovery a w =
      let written = write_desired a w.inventory in
      let w' = record w { inventory = written.0 } in
      elim written.1 [
        | some f ↦ (w', some f)
        | none ↦
            let closed = clear_journal y.clears a w'.journal in
            (record w' { journal = closed.0 }, closed.1)
      ]

  unfoldable pub recover_active : Active Rest → World Rest → World Rest × Option Failure
  recover_active a w =
      let sent = replay_targets (targets_of a) in
      let replayed = if needs_replay a w.inventory then sent else ([], none) in
      let rules = rules_all y.recover_rules (desired_of a) (opposite_of a) (targets_of a) in
      let w' = record w { calls = w.calls ++ replayed.0 } in
      elim (first_failure replayed.1 rules) [ some f ↦ (w', some f) | none ↦ close_recovery a w' ]

  -- An inventory that is neither of the journal's is left alone.
  unfoldable pub recover_known : Active Rest → World Rest → World Rest × Option Failure
  recover_known a w =
      if not (y.same w.inventory (desired_of a)) && not (y.same w.inventory (opposite_of a))
      then (w, some mismatch)
      else recover_active a w

  unfoldable pub recover : World Rest → World Rest × Option Failure
  recover w = elim y.unreadable [
    | some f ↦ (w, some f)
    | none ↦ elim w.journal [ none ↦ (w, none) | some a ↦ recover_known a w ]
  ]
