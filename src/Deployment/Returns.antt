-- ===== src/Deployment/Returns.antt =====
-- When `recover` of src/deployment-service.ts returns.
use birdbox.Prelude.{
  ◌≡◌, refl, Bool, true, false, not, ◌&&◌, ◌||◌, Option, none, some, List, [], ◌∷◌, ◌++◌, arith,
  if◌then◌else◌, All, Bool-cases, inl, inr,
}
use birdbox.Prelude.Text.{Text, units}
use birdbox.Deployment.State.{
  ManagedNode, Inventory, ConfigBundle, Target, Active, Failure, ok, writes, Answer, failure_of,
  Call, stages, applies,
}
use birdbox.Deployment.Script.{World, Commit, commits}
use birdbox.Deployment.Journal.{clear_journal, clear_journal-own}
use birdbox.Deployment.Store.{replace_with}
use birdbox.Deployment.Recover.{
  Replay, first_failure, send_all, desired_of, opposite_of, targets_of, rules_all, replay_targets,
  needs_replay, write_desired, close_recovery, recover_active, recover_known, recover,
}
use birdbox.Deployment.Replayed.{recover-pending}

module _ {Rest : Type 0} (y : Replay Rest) where
  -- Whether every command, hook, normalisation and write that a recovery may need goes well.
  pub record IsHealthy (a : Active Rest) : Type 0 where
    pub readable : y.unreadable ≡ none
    pub staging :
        All
          (λ t. failure_of (t.node.name ++ units " 的恢复配置检查失败") (y.stage t.node t.config) ≡ none)
          (targets_of a)
    pub applying :
        All
          (λ t. failure_of (t.node.name ++ units " 的恢复配置应用失败") (y.apply t.node t.config) ≡ none)
          (targets_of a)
    pub rules :
        All (λ t. y.recover_rules t.node (desired_of a) (opposite_of a) ≡ none) (targets_of a)
    pub normalizing : (n : Inventory Rest) × (y.normalize (desired_of a) ≡ ok n)
    pub committing : y.commit ≡ commits
    pub closing : y.clears ≡ writes

  send_all-none :
      (send : ManagedNode → ConfigBundle → Answer) (call : ManagedNode → ConfigBundle → Call)
      (fallback : Text) (ts : List Target)
      → All (λ t. failure_of (t.node.name ++ fallback) (send t.node t.config) ≡ none) ts
      → (send_all send call fallback ts).1 ≡ none
  unfolding send_all
  send_all-none send call fallback [] h = refl
  send_all-none send call fallback (t ∷ ts) (p, h) =
      rw (p, send_all) (send_all-none send call fallback ts h)

  rules_all-none :
      (rules : ManagedNode → Inventory Rest → Inventory Rest → Option Failure)
      (desired opposite : Inventory Rest) (ts : List Target)
      → All (λ t. rules t.node desired opposite ≡ none) ts
      → rules_all rules desired opposite ts ≡ none
  unfolding rules_all
  rules_all-none rules desired opposite [] h = refl
  rules_all-none rules desired opposite (t ∷ ts) (p, h) =
      rw p (rules_all-none rules desired opposite ts h)

  replay_targets-none : (a : Active Rest) → IsHealthy a → (replay_targets y (targets_of a)).1 ≡ none
  unfolding replay_targets
  replay_targets-none a h =
      rw
        (send_all-none y.stage stages (units " 的恢复配置检查失败") (targets_of a) h.staging, replay_targets)
        (send_all-none y.apply applies (units " 的恢复配置应用失败") (targets_of a) h.applying)

  replace_with-commits :
      (write : Commit Rest) (found normalized : Inventory Rest)
      → write ≡ commits
      → (replace_with y.same_stored write found normalized).1 ≡ none
  unfolding replace_with
  replace_with-commits write found normalized e = rw e refl

  write_desired-none :
      (a : Active Rest) (actual : Inventory Rest)
      → (n : Inventory Rest) × (y.normalize (desired_of a) ≡ ok n)
      → y.commit ≡ commits
      → (write_desired y a actual).1 ≡ none
  unfolding write_desired
  write_desired-none a actual (n, fine) e = elim (Bool-cases (y.same actual (desired_of a))) [
    | inl is ↦ rw is refl
    | inr other ↦ rw (other, fine) (replace_with-commits y.commit actual n e)
  ]

  close_recovery-none :
      (a : Active Rest) (w : World Rest)
      → IsHealthy a
      → w.journal ≡ some a
      → (close_recovery y a w).1 ≡ none
  unfolding close_recovery
  close_recovery-none a w h pending =
      rw (write_desired-none a w.inventory h.normalizing h.committing, close_recovery)
        (closes w.journal pending)
    where
      closes : (j : Option (Active Rest)) → j ≡ some a → (clear_journal y.clears a j).1 ≡ none
      closes j is = rw (is, clear_journal-own y.clears a a h.closing refl) refl

  recover_active-none :
      (a : Active Rest) (w : World Rest)
      → IsHealthy a
      → w.journal ≡ some a
      → (recover_active y a w).1 ≡ none
  unfolding recover_active
  recover_active-none a w h pending = rw (fine, recover_active) (close_recovery-none a _ h pending)
    where
      sent :
          (if needs_replay y a w.inventory then replay_targets y (targets_of a) else ([], none)).1
          ≡ none
      sent = elim (Bool-cases (needs_replay y a w.inventory)) [
        | inl e ↦ rw e (replay_targets-none a h)
        | inr e ↦ rw e refl
      ]

      fine :
          first_failure
            (if needs_replay y a w.inventory then replay_targets y (targets_of a) else ([], none)).1
            (rules_all y.recover_rules (desired_of a) (opposite_of a) (targets_of a))
          ≡ none
      fine =
          rw sent
            (rules_all-none y.recover_rules (desired_of a) (opposite_of a) (targets_of a) h.rules)

  -- Where the store holds one of the two inventories of the journal, a recovery whose commands, hooks,
  -- normalisation and writes all go well returns: it neither refuses nor fails.
  pub recover-returns :
      (a : Active Rest) (w : World Rest)
      → IsHealthy a
      → w.journal ≡ some a
      → (y.same w.inventory (desired_of a) || y.same w.inventory (opposite_of a)) ≡ true
      → (recover y w).1 ≡ none
  unfolding recover_known
  recover-returns a w h pending known =
      rw (recover-pending y a w h.readable pending, recover_known)
        (rw (clears _ _ known) (recover_active-none a w h pending))
    where
      clears : (p q : Bool) → (p || q) ≡ true → (not p && not q) ≡ false
      clears p q k = ground arith
