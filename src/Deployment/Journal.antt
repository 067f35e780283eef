-- ===== src/Deployment/Journal.antt =====
-- The journal of src/deployment-service.ts: at most one deployment that is under way. Each of its
-- transactions leaves the stored journal and an exception: one that the database breaks off changes
-- nothing, but an exception may also hide a commit.
use birdbox.Prelude.{
  ◌≡◌, ◌⊎◌, refl, eq_iff, Bool-cases, inl, inr, String, Option, none, some, List, str_eq,
  if◌then◌else◌,
}
use birdbox.Prelude.Text.{units}
use birdbox.Deployment.State.{
  ManagedNode, Inventory, ConfigBundle, Direction, forward, Active, Failure, Result, ok, err, Write,
  writes, unwritten, unanswered, ◌>>=◌, plain_failure,
}
use birdbox.Deployment.Targets.{targets, mark_removed_resources}

abbrev pub replaced : Failure
replaced = plain_failure (units "部署恢复日志已被意外替换")

module _ {Rest : Type 0} where
  -- `mutateState` of src/database.ts on the journal, where `made` is what the function that it is
  -- given makes of the stored one, or why it refuses.
  unfoldable pub mutate_journal :
      Write
      → Option (Active Rest)
      → Result (Option (Active Rest))
      → Option (Active Rest) × Option Failure
  mutate_journal (unwritten f) journal made = (journal, some f)
  mutate_journal writes journal (ok now) = (now, none)
  mutate_journal writes journal (err f) = (journal, some f)
  mutate_journal (unanswered f) journal (ok now) = (now, some f)
  mutate_journal (unanswered f) journal (err g) = (journal, some g)

  abbrev opened : Active Rest → Option (Active Rest) → Result (Option (Active Rest))
  opened active (some other) = err (plain_failure (units "存在尚未完成的部署恢复任务，请重启服务完成恢复"))
  opened active none = ok (some active)

  -- The transaction of `beginJournal`.
  unfoldable pub open_journal :
      Write → Active Rest → Option (Active Rest) → Option (Active Rest) × Option Failure
  open_journal write active journal = mutate_journal write journal (opened active journal)

  abbrev turned : Active Rest → Direction → Option (Active Rest) → Result (Option (Active Rest))
  turned active direction none = err replaced
  turned active direction (some now) =
      if str_eq now.id active.id
      then ok (some (record now { direction = direction }))
      else err replaced

  -- The transaction of `setJournalDirection`.
  unfoldable pub set_journal_direction :
      Write → Active Rest → Direction → Option (Active Rest) → Option (Active Rest) × Option Failure
  set_journal_direction write active direction journal =
      mutate_journal write journal (turned active direction journal)

  abbrev cleared : Active Rest → Option (Active Rest) → Result (Option (Active Rest))
  cleared active none = err replaced
  cleared active (some now) = if str_eq now.id active.id then ok none else err replaced

  unfoldable pub clear_journal :
      Write → Active Rest → Option (Active Rest) → Option (Active Rest) × Option Failure
  clear_journal write active journal = mutate_journal write journal (cleared active journal)

  -- What `beginJournal` writes down.
  unfoldable pub new_journal :
      (Inventory Rest → ManagedNode → ConfigBundle)
      → (ManagedNode → ConfigBundle)
      → String
      → Inventory Rest
      → Inventory Rest
      → List String
      → List ManagedNode
      → Result (Active Rest)
  new_journal config_for_node empty_config id before after node_ids fallback_nodes =
      targets config_for_node empty_config after node_ids fallback_nodes >>= λ forward_targets.
      targets config_for_node empty_config before node_ids fallback_nodes >>= λ rollback_targets.
      ok (record {
        id = id;
        direction = forward;
        before = before;
        after = after;
        forward_targets = mark_removed_resources forward_targets rollback_targets;
        rollback_targets = mark_removed_resources rollback_targets forward_targets;
      })

  -- A service that holds the stored journal can close it.
  pub clear_journal-own :
      (clears : Write) (a now : Active Rest)
      → clears ≡ writes
      → now.id ≡ a.id
      → clear_journal clears a (some now) ≡ (none, none)
  unfolding clear_journal mutate_journal
  clear_journal-own clears a now works same =
      rw (works, clear_journal) (rw ((eq_iff now.id a.id).1 same) refl)

  -- A transaction that returns has made its change, and one that throws has made it, or left the
  -- journal as it was.
  mutate_journal-Outcome :
      (write : Write) (stored : Option (Active Rest)) (made : Result (Option (Active Rest)))
      → ((mutate_journal write stored made).1 ≡ none
          → made ≡ ok (mutate_journal write stored made).0)
        × (((mutate_journal write stored made).0 ≡ stored)
            ⊎ (made ≡ ok (mutate_journal write stored made).0))
  unfolding mutate_journal
  mutate_journal-Outcome (unwritten f) stored made = (λ e. absurd (cc e), inl refl)
  mutate_journal-Outcome writes stored (ok now) = (λ e. refl, inr refl)
  mutate_journal-Outcome writes stored (err f) = (λ e. absurd (cc e), inl refl)
  mutate_journal-Outcome (unanswered f) stored (ok now) = (λ e. absurd (cc e), inr refl)
  mutate_journal-Outcome (unanswered f) stored (err g) = (λ e. absurd (cc e), inl refl)

  cleared-none :
      (a : Active Rest) (stored now : Option (Active Rest)) → cleared a stored ≡ ok now → now ≡ none
  cleared-none a none now e = absurd (cc e)
  cleared-none a (some b) now e = elim (Bool-cases (str_eq b.id a.id)) [
    | inl same ↦ let e' = rw same at e in cc e'
    | inr other ↦ absurd (let e' = rw other at e in cc e')
  ]

  turned-some :
      (a : Active Rest) (d : Direction) (stored now : Option (Active Rest))
      → turned a d stored ≡ ok now
      → now ≡ none
      → ⊥
  turned-some a d none now e gone = cc e
  turned-some a d (some b) now e gone = elim (Bool-cases (str_eq b.id a.id)) [
    | inl same ↦ let e' = rw same at e in cc (e', gone)
    | inr other ↦ let e' = rw other at e in cc e'
  ]

  -- A journal is gone once it has been closed without an exception, and with one it is gone or as it
  -- was.
  pub clear_journal-none :
      (clears : Write) (a : Active Rest) (stored : Option (Active Rest))
      → ((clear_journal clears a stored).1 ≡ none → (clear_journal clears a stored).0 ≡ none)
        × (((clear_journal clears a stored).0 ≡ stored)
            ⊎ ((clear_journal clears a stored).0 ≡ none))
  unfolding clear_journal
  clear_journal-none clears a stored =
      let (returned, left) = mutate_journal-Outcome clears stored (cleared a stored) in
      (
        λ e. cleared-none a stored _ (returned e),
        elim left [ inl same ↦ inl same | inr made ↦ inr (cleared-none a stored _ made) ],
      )

  -- The mark leaves a journal that is there.
  pub set_journal_direction-some :
      (marks : Write) (a : Active Rest) (d : Direction) (b : Active Rest)
      (stored : Option (Active Rest))
      → stored ≡ some b
      → (set_journal_direction marks a d stored).0 ≡ none
      → ⊥
  unfolding set_journal_direction
  set_journal_direction-some marks a d b stored is gone =
      elim (mutate_journal-Outcome marks stored (turned a d stored)).1 [
        | inl same ↦ cc (is, same, gone)
        | inr made ↦ turned-some a d stored _ made gone
      ]

  -- A journal that has been opened without an exception is stored.
  pub open_journal-some :
      (opens : Write) (a : Active Rest)
      → (open_journal opens a none).1 ≡ none
      → (open_journal opens a none).0 ≡ some a
  unfolding open_journal mutate_journal
  open_journal-some writes a e = refl
  open_journal-some (unwritten f) a e = absurd (cc e)
  open_journal-some (unanswered f) a e = absurd (cc e)
