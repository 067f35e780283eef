-- ===== src/Deployment/Safe.antt =====
-- When an attempt of src/deployment-service.ts may leave no journal behind.
use birdbox.Prelude.{
  ◌≡◌, refl, ap, Bool, true, false, Option, none, some, List, [], ◌∷◌, ◌++◌, is_empty, In,
  Option-cases, inl, inr,
}
use birdbox.Deployment.State.{
  ManagedNode, Inventory, ConfigBundle, Active, Failure, Result, ok, err, Result-cases, Call,
  applies,
}
use birdbox.Deployment.Script.{Script, Plan, World}
use birdbox.Deployment.Store.{replace_with, replace_with-IsStored}
use birdbox.Deployment.Journal.{clear_journal}
use birdbox.Deployment.Attempt.{
  blame_none, Staged, Applied, Draft, stage_all, apply_all, config_from, prepare,
}
use birdbox.Deployment.Undo.{Results}
use birdbox.Deployment.Service.{
  gave_up, failure_report, none_applied, conclude, commit_draft, apply_draft, begin_journal,
  deploy_draft, take_back, attempt,
}
use birdbox.Deployment.Begun.{Begun, begin_journal-Begun_at}
use birdbox.Deployment.Undone.{
  In-append, In-right, apply_all-went, stage_all-calls, apply_all-calls,
}
use birdbox.Deployment.Taken.{
  IsSafe, IsApplied, IsMade, AllApplied, Coherent, Known, not-In, take_back-IsSafe,
}

module _ {Rest A : Type 0} (p : Plan Rest A) (sc : Script Rest) where
  failure_report-IsApplied :
      (f : Failure) (nodes : List ManagedNode) (active : Option (Active Rest)) (tried good : Bool)
      (results : Results)
      → is_empty nodes ≡ false
      → IsApplied p sc (gave_up f (failure_report p sc nodes true active tried good results))
  unfolding failure_report
  failure_report-IsApplied f [] active tried good results h = absurd (cc h)
  failure_report-IsApplied f (n ∷ ns) active tried good results h = refl

  conclude-IsSafe :
      (d : Draft Rest A) (active : Option (Active Rest)) (normalized : Inventory Rest)
      (w : World Rest)
      → Begun p sc d.nodes active w.journal
      → IsMade p sc w
      → IsSafe p sc (conclude p sc d active normalized w)
  unfolding conclude
  conclude-IsSafe d none normalized w begun made = λ gone. inl (tt, made)
  conclude-IsSafe d (some a) normalized w (is, nodes) made =
      elim (Option-cases (clear_journal sc.clears a w.journal).1) [
        | inl e ↦ rw (e, conclude) (λ gone. inl (tt, made))
        | inr (f, e) ↦
            rw (e, conclude)
              (λ gone. inl (failure_report-IsApplied f d.nodes (some a) false true _ nodes, made))
      ]

  commit_draft-IsSafe :
      (is_last : Bool) (d : Draft Rest A) (active : Option (Active Rest)) (ap : Applied)
      (w : World Rest)
      → prepare p sc ≡ ok d
      → Known ap.attempted w.calls
      → Coherent active ap.attempted w.journal
      → Begun p sc d.nodes active w.journal
      → AllApplied p sc d.nodes w.calls
      → IsSafe p sc (commit_draft p sc is_last d active ap w)
  unfolding commit_draft
  commit_draft-IsSafe is_last d active ap w prepared known ready begun applied =
      elim (Result-cases (p.validate d.inventory)) [
        | inr (f, e) ↦
            rw (e, commit_draft)
              (take_back-IsSafe p sc is_last d.nodes active ap (blame_none f) w known ready)
        | inl (normalized, e) ↦ elim (Option-cases (written normalized).1) [
          | inr (f, e') ↦
              rw (e, e', commit_draft)
                (take_back-IsSafe p sc is_last d.nodes active ap (blame_none f)
                  (record w { inventory = (written normalized).0 }) known ready)
          | inl e' ↦
              rw (e, e', commit_draft)
                (conclude-IsSafe d active normalized
                  (record w { inventory = (written normalized).0 }) begun
                  (
                    d,
                    normalized,
                    prepared,
                    e,
                    replace_with-IsStored p.same_stored sc.commit d.current normalized e',
                    applied,
                  ))
        ]
      ]
    where
      written : Inventory Rest → Inventory Rest × Option Failure
      written normalized = replace_with p.same_stored sc.commit d.current normalized

  abbrev Unapplied : List Call → Type 0
  Unapplied calls = (n : ManagedNode) (c : ConfigBundle) → In (applies n c) calls → ⊥

  abbrev applying : Draft Rest A → Option (Active Rest) → Applied
  applying d active =
      apply_all (config_from active (p.config_for_node d.inventory)) sc [] [] d.nodes

  apply_draft-Known :
      (d : Draft Rest A) (active : Option (Active Rest)) (calls : List Call)
      → Unapplied calls
      → Known (applying d active).attempted (calls ++ (applying d active).calls)
  apply_draft-Known d active calls fresh n c i =
      elim (In-append calls (applying d active).calls i) [
        | inl j ↦ absurd (fresh n c j)
        | inr j ↦
            apply_all-calls sc (config_from active (p.config_for_node d.inventory)) [] [] d.nodes n
              c j
      ]

  apply_draft-AllApplied :
      (d : Draft Rest A) (active : Option (Active Rest)) (calls : List Call)
      → (applying d active).blame ≡ none
      → AllApplied p sc d.nodes (calls ++ (applying d active).calls)
  apply_draft-AllApplied d active calls e n i =
      let (sent, well) =
        apply_all-went sc (config_from active (p.config_for_node d.inventory)) [] [] d.nodes e n
          i in
      (
        config_from active (p.config_for_node d.inventory) n,
        (In-right calls (applying d active).calls sent, well),
      )

  apply_draft-Coherent :
      (d : Draft Rest A) (active stored : Option (Active Rest))
      → Begun p sc d.nodes active stored
      → Coherent active (applying d active).attempted stored
  unfolding apply_all
  apply_draft-Coherent d none stored empty = rw (empty, apply_all) refl
  apply_draft-Coherent d (some a) stored (is, nodes) = (a, is)

  apply_draft-IsSafe :
      (is_last : Bool) (d : Draft Rest A) (active : Option (Active Rest)) (w : World Rest)
      → prepare p sc ≡ ok d
      → Unapplied w.calls
      → Begun p sc d.nodes active w.journal
      → IsSafe p sc (apply_draft p sc is_last d active w)
  unfolding apply_draft
  apply_draft-IsSafe is_last d active w prepared fresh begun =
      let known = apply_draft-Known d active w.calls fresh in
      let ready = apply_draft-Coherent d active w.journal begun in
      let w' = record w { calls = w.calls ++ (applying d active).calls } in
      elim (Option-cases (applying d active).blame) [
        | inr (b, e) ↦
            rw (e, apply_draft)
              (take_back-IsSafe p sc is_last d.nodes active (applying d active) b w' known ready)
        | inl e ↦
            rw (e, apply_draft)
              (commit_draft-IsSafe is_last d active (applying d active) w' prepared known ready
                begun (apply_draft-AllApplied d active w.calls e))
      ]

  Unapplied-append :
      (calls more : List Call) → calls ≡ [] → Unapplied more → Unapplied (calls ++ more)
  Unapplied-append [] more e h = h
  Unapplied-append (k ∷ calls) more e h = absurd (cc e)

  none_applied-Known : (calls : List Call) → Unapplied calls → Known none_applied.attempted calls
  none_applied-Known calls h n c i = absurd (h n c i)

  deploy_draft-IsSafe :
      (is_last : Bool) (d : Draft Rest A) (w : World Rest)
      → prepare p sc ≡ ok d
      → w.calls ≡ []
      → w.journal ≡ none
      → IsSafe p sc (deploy_draft p sc is_last d w)
  unfolding deploy_draft
  deploy_draft-IsSafe is_last d w prepared unsent closed = elim (Option-cases staged.blame) [
    | inr (b, e) ↦
        rw (e, deploy_draft)
          (take_back-IsSafe p sc is_last d.nodes none none_applied b w'
            (none_applied-Known w'.calls fresh) refl)
    | inl e ↦ elim (Result-cases begun.1) [
      | inr (f, e') ↦
          rw (e, e', deploy_draft)
            (take_back-IsSafe p sc is_last d.nodes none none_applied (blame_none f)
              (record w' { journal = begun.0 }) (none_applied-Known w'.calls fresh) refl)
      | inl (active, e') ↦
          rw (e, e', deploy_draft)
            (apply_draft-IsSafe is_last d active (record w' { journal = begun.0 }) prepared fresh
              (begin_journal-Begun_at p sc d active w.journal closed e'))
    ]
  ]
    where
      begun : Option (Active Rest) × Result (Option (Active Rest))
      begun = begin_journal p sc d w.journal

      staged : Staged
      staged = stage_all p.validation_error (p.config_for_node d.inventory) sc d.nodes

      w' : World Rest
      w' = record w { calls = w.calls ++ staged.calls }

      fresh : Unapplied w'.calls
      fresh =
          Unapplied-append w.calls staged.calls unsent
            (stage_all-calls sc p.validation_error (p.config_for_node d.inventory) d.nodes)

  attempt-prepared :
      (is_last : Bool) (w : World Rest) (d : Draft Rest A)
      → prepare p sc ≡ ok d
      → attempt p sc is_last w ≡ deploy_draft p sc is_last d (record w { inventory = sc.found })
  unfolding attempt
  attempt-prepared is_last w d e = rw (e, attempt) refl

  attempt-refused :
      (is_last : Bool) (w : World Rest) (f : Failure)
      → prepare p sc ≡ err f
      → attempt p sc is_last w
        ≡ take_back p sc is_last [] none none_applied
            (blame_none f)
            (record w { inventory = sc.found })
  unfolding attempt
  attempt-refused is_last w f e = rw (e, attempt) refl

  -- An attempt begins without a journal, with no command sent before, and leaves no journal, whether
  -- the answers of the writes of the journal come or are lost. Then the store holds the inventory that
  -- it has prepared and normalised (or one that is the same for the store), each of its nodes was sent
  -- the command to apply a config, and that and the hook of the node went well, and the caller gets its
  -- result, or an exception whose report says that the change is applied; or else each node for which
  -- it sent the command to apply a config was sent the one that takes it back, and that command and
  -- the rollback hook of the node went well.
  pub attempt-IsSafe :
      (is_last : Bool) (w : World Rest)
      → w.calls ≡ []
      → w.journal ≡ none
      → IsSafe p sc (attempt p sc is_last w)
  unfolding attempt
  attempt-IsSafe is_last w unsent closed = elim (Result-cases (prepare p sc)) [
    | inr (f, e) ↦ rw (attempt-refused is_last w f e) (
        take_back-IsSafe p sc is_last [] none none_applied (blame_none f) w'
          (none_applied-Known w.calls (λ n c i. not-In (rw unsent at i))) refl)
    | inl (d, e) ↦
        rw (attempt-prepared is_last w d e) (deploy_draft-IsSafe is_last d w' e unsent closed)
  ]
    where
      w' : World Rest
      w' = record w { inventory = sc.found }
