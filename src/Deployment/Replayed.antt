-- ===== src/Deployment/Replayed.antt =====
-- What `recover` of src/deployment-service.ts leaves behind.
use birdbox.Prelude.{
  ◌≡◌, ◌⊎◌, refl, true, false, not, ◌&&◌, Option, none, some, [], if◌then◌else◌, Bool-cases,
  Option-cases, inl, inr,
}
use birdbox.Deployment.State.{Inventory, Active, Failure, ok, Result-cases}
use birdbox.Deployment.Script.{World}
use birdbox.Deployment.Journal.{clear_journal, clear_journal-none}
use birdbox.Deployment.Store.{replace_with, IsStored, replace_with-IsStored}
use birdbox.Deployment.Recover.{
  Replay, first_failure, desired_of, opposite_of, targets_of, rules_all, replay_targets,
  needs_replay, write_desired, close_recovery, recover_active, recover_known, recover,
}

module _ {Rest : Type 0} (y : Replay Rest) where
  -- The inventory is the wanted one, or it is what a write of the wanted one, normalised, has stored.
  abbrev pub IsWanted : Active Rest → Inventory Rest → Type 0
  IsWanted a i =
      (y.same i (desired_of a) ≡ true)
      ⊎ ((n : Inventory Rest) × (y.normalize (desired_of a) ≡ ok n) × IsStored y.same_stored i n)

  abbrev pub IsClosed : Active Rest → World Rest → Type 0
  IsClosed a w = (w.journal ≡ none) × IsWanted a w.inventory

  -- How a recovery of `a` from `w` ends.
  abbrev pub Ends : Active Rest → World Rest → World Rest × Option Failure → Type 0
  Ends a w (w', none) = IsClosed a w'
  Ends a w (w', some f) = (w'.journal ≡ w.journal) ⊎ IsClosed a w'

  normalized-IsWanted :
      (a : Active Rest) (actual n : Inventory Rest)
      → y.normalize (desired_of a) ≡ ok n
      → (replace_with y.same_stored y.commit actual n).1 ≡ none
      → IsWanted a (replace_with y.same_stored y.commit actual n).0
  normalized-IsWanted a actual n is e =
      inr (n, is, replace_with-IsStored y.same_stored y.commit actual n e)

  write_desired-written :
      (a : Active Rest) (actual n : Inventory Rest)
      → y.same actual (desired_of a) ≡ false
      → y.normalize (desired_of a) ≡ ok n
      → write_desired y a actual ≡ replace_with y.same_stored y.commit actual n
  unfolding write_desired
  write_desired-written a actual n other is = rw (other, is) refl

  write_desired-IsWanted :
      (a : Active Rest) (actual : Inventory Rest)
      → (write_desired y a actual).1 ≡ none
      → IsWanted a (write_desired y a actual).0
  unfolding write_desired
  write_desired-IsWanted a actual e = elim (Bool-cases (y.same actual (desired_of a))) [
    | inl is ↦ inl (same is)
    | inr other ↦ elim (Result-cases (y.normalize (desired_of a))) [
      | inr (f, bad) ↦ absurd (let e' = rw (other, bad) at e in cc e')
      | inl (n, is) ↦
          let written = write_desired-written a actual n other is in
          let e' = rw written at e in rw written (normalized-IsWanted a actual n is e')
    ]
  ]
    where
      same :
          y.same actual (desired_of a) ≡ true
          → y.same (write_desired y a actual).0 (desired_of a) ≡ true
      same is = rw (is, is) refl

  close_recovery-Ends : (a : Active Rest) (w : World Rest) → Ends a w (close_recovery y a w)
  unfolding close_recovery
  close_recovery-Ends a w = elim (Option-cases (write_desired y a w.inventory).1) [
    | inr (g, is) ↦ rw (is, close_recovery) (inl refl)
    | inl fine ↦
        let (returned, left) = clear_journal-none y.clears a w.journal in
        let wanted = write_desired-IsWanted a w.inventory fine in
        elim (Option-cases (clear_journal y.clears a w.journal).1) [
          | inr (g, broken) ↦
              rw (fine, broken, close_recovery)
                (elim left [ inl same ↦ inl same | inr gone ↦ inr (gone, wanted) ])
          | inl closes ↦ rw (fine, closes, close_recovery) (returned closes, wanted)
        ]
  ]

  recover_active-Ends : (a : Active Rest) (w : World Rest) → Ends a w (recover_active y a w)
  unfolding recover_active
  recover_active-Ends a w =
      elim (Option-cases (
        first_failure
          (if needs_replay y a w.inventory then replay_targets y (targets_of a) else ([], none)).1
          (rules_all y.recover_rules (desired_of a) (opposite_of a) (targets_of a)))) [
            | inr (g, is) ↦ rw (is, recover_active) (inl refl)
            | inl fine ↦ rw (fine, recover_active) (close_recovery-Ends a _)
          ]

  recover_known-Ends : (a : Active Rest) (w : World Rest) → Ends a w (recover_known y a w)
  unfolding recover_known
  recover_known-Ends a w =
      elim (Bool-cases
        (not (y.same w.inventory (desired_of a)) && not (y.same w.inventory (opposite_of a)))) [
          | inl strange ↦ rw strange (inl refl)
          | inr known ↦ rw known (recover_active-Ends a w)
        ]

  pub recover-pending :
      (a : Active Rest) (w : World Rest)
      → y.unreadable ≡ none
      → w.journal ≡ some a
      → recover y w ≡ recover_known y a w
  unfolding recover
  recover-pending a w readable pending = found y.unreadable w.journal readable pending
    where
      found :
          (u : Option Failure) (j : Option (Active Rest))
          → u ≡ none
          → j ≡ some a
          → elim u as (λ x. World Rest × Option Failure) [
            | some f ↦ (w, some f)
            | none ↦ elim j as (λ x. World Rest × Option Failure) [
              | none ↦ (w, none)
              | some b ↦ recover_known y b w
            ]
          ]
            ≡ recover_known y a w
      found u j e f = rw (e, f) refl

  -- Where a journal is pending, a recovery that returns has closed the journal, and the store holds
  -- the inventory that the journal wants: one that is the same, or that a write of the wanted one,
  -- normalised, has stored. One that throws leaves the journal as it is, so that the next one finds it,
  -- or, where only the answer of the closing write was lost, has done the same as one that returns.
  pub recover-Ends :
      (a : Active Rest) (w : World Rest) → w.journal ≡ some a → Ends a w (recover y w)
  unfolding recover
  recover-Ends a w pending = elim (Option-cases y.unreadable) [
    | inr (f, broken) ↦ rw (broken, recover) (inl refl)
    | inl readable ↦ rw (recover-pending a w readable pending) (recover_known-Ends a w)
  ]
