-- ===== src/Deployment/Service.antt =====
-- `mutateAndApply` of src/deployment-service.ts.
use birdbox.Prelude.{
  ℕ, zero, suc, Bool, true, false, not, ◌&&◌, Option, none, some, List, [], ◌∷◌, ◌++◌, map, str_eq,
  if◌then◌else◌, is_empty,
}
use birdbox.Prelude.Dict
use birdbox.Prelude.Text.{units}
use birdbox.Deployment.State.{
  ManagedNode, Inventory, ConfigBundle, Active, Failure, Result, ok, err, plain_failure, Report,
  not_attempted, success, failed,
}
use birdbox.Deployment.Script.{Script, Plan, World}
use birdbox.Deployment.Store.{replace_with, is_conflict}
use birdbox.Deployment.Targets.{report}
use birdbox.Deployment.Journal.{new_journal, open_journal, clear_journal}
use birdbox.Deployment.Attempt.{
  Blame, blame_none, Applied, Draft, stage_all, apply_all, config_from, prepare,
}
use birdbox.Deployment.Undo.{Results, note, roll_back_all, mark_rollback, close_journal}

pub data Ended (Rest A : Type 0) : Type 0 where
  finished : Inventory Rest → A → Report → Ended Rest A
  gave_up : Failure → Option Report → Ended Rest A
  again : Ended Rest A

unfoldable pub note_all : List ManagedNode → Results → Results
note_all [] results = results
note_all (n ∷ ns) results = note_all ns (note n.id not_attempted none results)

unfoldable pub note_done : List ManagedNode → Results → Results
note_done [] results = results
note_done (n ∷ ns) results = note n.id success none (note_done ns results)

unfoldable pub note_blame : Blame → Results → Results
note_blame b results = elim b.node_id [
  | none ↦ results
  | some id ↦ if str_eq id "" then results else note id failed (some b.failure.message) results
]

abbrev pub none_applied : Applied
none_applied = record { attempted = []; done = []; calls = []; blame = none }

abbrev pub empty_config : ConfigBundle
empty_config = record { main = []; resources = []; removed_resources = [] }

module _ {Rest A : Type 0} (p : Plan Rest A) (sc : Script Rest) where
  unfoldable pub failure_report :
      List ManagedNode → Bool → Option (Active Rest) → Bool → Bool → Results → Option Report
  failure_report [] applied active attempted succeeded results = none
  failure_report (n ∷ ns) applied active attempted succeeded results = some (record {
    applied = applied;
    transaction_id = elim active [ none ↦ none | some a ↦ some a.id ];
    node_ids = map (λ m. m.id) (n ∷ ns);
    nodes = map (λ m. (m.id, m.name)) (n ∷ ns);
    node_results = Dict.values results;
    rollback_attempted = attempted;
    rollback_succeeded = succeeded;
    sessions = [];
  })

  -- The `catch` of an attempt that is not committed. `active` is the journal in the service's hand.
  unfoldable pub take_back :
      Bool
      → List ManagedNode
      → Option (Active Rest)
      → Applied
      → Blame
      → World Rest
      → World Rest × Ended Rest A
  take_back is_last nodes active ap blame w =
      let marked = mark_rollback sc.marks active w.journal in
      let noted = note_blame blame (note_done ap.done (note_all nodes [])) in
      let rolled =
        roll_back_all (config_from active (λ n. empty_config)) sc blame noted ap.attempted in
      let closed = close_journal sc.clears_again (marked.0 && rolled.succeeded) active marked.1 in
      let sent = w.calls ++ rolled.calls in
      elim rolled.escaped [
        | some f ↦ (record w { journal = marked.1; calls = sent }, gave_up f none)
        | none ↦ (
          record w { journal = closed.1; calls = sent },
          if is_conflict blame.failure && (rolled.succeeded && (closed.0 && not is_last))
              then again
              else gave_up blame.failure (
                  failure_report nodes false active (not (is_empty ap.attempted)) rolled.succeeded
                    rolled.results),
        )
      ]

  -- What follows the commit: an exception no longer takes anything back.
  unfoldable pub conclude :
      Draft Rest A → Option (Active Rest) → Inventory Rest → World Rest → World Rest × Ended Rest A
  conclude d none normalized w =
      (w, finished normalized d.mutation (report d.inventory d.node_ids sc.journal_id))
  conclude d (some a) normalized w =
      let closed = clear_journal sc.clears a w.journal in
      let w' = record w { journal = closed.0 } in
      elim closed.1 [
        | none ↦ (w', finished normalized d.mutation (report d.inventory d.node_ids a.id))
        | some f ↦ (
          w',
          gave_up f (
              failure_report d.nodes true (some a) false true
                (note_done d.nodes (note_all d.nodes []))),
        )
      ]

  unfoldable pub commit_draft :
      Bool → Draft Rest A → Option (Active Rest) → Applied → World Rest → World Rest × Ended Rest A
  commit_draft is_last d active ap w = elim (p.validate d.inventory) [
    | err f ↦ take_back is_last d.nodes active ap (blame_none f) w
    | ok normalized ↦
        let stored = replace_with p.same_stored sc.commit d.current normalized in
        let w' = record w { inventory = stored.0 } in
        elim stored.1 [
          | some f ↦ take_back is_last d.nodes active ap (blame_none f) w'
          | none ↦ conclude d active normalized w'
        ]
  ]

  unfoldable pub apply_draft :
      Bool → Draft Rest A → Option (Active Rest) → World Rest → World Rest × Ended Rest A
  apply_draft is_last d active w =
      let ap = apply_all (config_from active (p.config_for_node d.inventory)) sc [] [] d.nodes in
      let w' = record w { calls = w.calls ++ ap.calls } in
      elim ap.blame [
        | some b ↦ take_back is_last d.nodes active ap b w'
        | none ↦ commit_draft is_last d active ap w'
      ]

  -- The stored journal, and the one that the service gets in its hand. Without a node to deploy to
  -- there is none.
  unfoldable pub begin_journal :
      Draft Rest A → Option (Active Rest) → Option (Active Rest) × Result (Option (Active Rest))
  begin_journal d stored =
      if is_empty d.nodes
      then (stored, ok none)
      else elim (new_journal p.config_for_node p.empty_config_for_node sc.journal_id d.current
          d.inventory d.node_ids d.nodes) [
            | err f ↦ (stored, err f)
            | ok a ↦
                let opened = open_journal sc.opens a stored in
                (opened.0, elim opened.1 [ none ↦ ok (some a) | some f ↦ err f ])
          ]

  unfoldable pub deploy_draft : Bool → Draft Rest A → World Rest → World Rest × Ended Rest A
  deploy_draft is_last d w =
      let st = stage_all p.validation_error (p.config_for_node d.inventory) sc d.nodes in
      let w' = record w { calls = w.calls ++ st.calls } in
      elim st.blame [
        | some b ↦ take_back is_last d.nodes none none_applied b w'
        | none ↦
            let begun = begin_journal d w'.journal in
            let w'' = record w' { journal = begun.0 } in
            elim begun.1 [
              | err f ↦ take_back is_last d.nodes none none_applied (blame_none f) w''
              | ok active ↦ apply_draft is_last d active w''
            ]
      ]

  unfoldable pub attempt : Bool → World Rest → World Rest × Ended Rest A
  attempt is_last w =
      let w' = record w { inventory = sc.found } in
      elim (prepare p sc) [
        | err f ↦ take_back is_last [] none none_applied (blame_none f) w'
        | ok d ↦ deploy_draft is_last d w'
      ]

abbrev pub left_none : ℕ → Bool
left_none zero = true
left_none (suc n) = false

-- `again` at the end is the error that follows the loop.
unfoldable pub attempt_from :
    {Rest A : Type 0}
    → Plan Rest A
    → (ℕ → Script Rest)
    → ℕ
    → ℕ
    → World Rest
    → World Rest × Ended Rest A
attempt_from p scripts n zero w = (w, gave_up (plain_failure (units "部署重试次数超限")) none)
attempt_from p scripts n (suc left) w =
    let (w', ended) = attempt p (scripts n) (left_none left) w in
    let rest = attempt_from p scripts (suc n) left w' in
    elim ended [
      | finished i a r ↦ (w', finished i a r)
      | gave_up f r ↦ (w', gave_up f r)
      | again ↦ rest
    ]

abbrev pub inventory_commit_retries : ℕ
inventory_commit_retries = 3

unfoldable pub mutate_and_apply :
    {Rest A : Type 0} → Plan Rest A → (ℕ → Script Rest) → World Rest → World Rest × Ended Rest A
mutate_and_apply p scripts w = attempt_from p scripts 0 inventory_commit_retries w
