-- ===== src/Deployment/Attempts.antt =====
-- How the loop of attempts in src/deployment-service.ts ends.
use birdbox.Prelude.{
  ◌≡◌, ◌⊎◌, refl, ◌∙◌, ℕ, zero, suc, ◌+◌, ◌≤◌, Bool, true, false, ◌&&◌, Option, none, some, List,
  [], arith, Option-cases, inl, inr,
}
use birdbox.Deployment.State.{ManagedNode, Inventory, Active, Result-cases}
use birdbox.Deployment.Script.{Script, Plan, World}
use birdbox.Deployment.Store.{replace_with}
use birdbox.Deployment.Journal.{clear_journal}
use birdbox.Deployment.Attempt.{
  Blame, blame_none, Applied, Draft, stage_all, apply_all, config_from, prepare,
}
use birdbox.Deployment.Undo.{roll_back_all}
use birdbox.Deployment.Service.{
  Ended, finished, gave_up, again, note_all, note_done, note_blame, empty_config, none_applied,
  take_back, conclude, commit_draft, apply_draft, begin_journal, deploy_draft, attempt,
  attempt_from, mutate_and_apply, left_none,
}

abbrev pub IsEnded : {Rest A : Type 0} → Ended Rest A → Type 0
IsEnded (finished i a r) = Unit
IsEnded (gave_up f r) = Unit
IsEnded again = ⊥

and_false : (b : Bool) → (b && false) ≡ false
and_false true = refl
and_false false = refl

module _ {Rest A : Type 0} (p : Plan Rest A) (sc : Script Rest) where
  take_back-IsEnded :
      (nodes : List ManagedNode) (active : Option (Active Rest)) (ap' : Applied) (blame : Blame)
      (w : World Rest)
      → IsEnded (take_back p sc true nodes active ap' blame w).1
  unfolding take_back
  take_back-IsEnded nodes active ap' blame w =
      elim (Option-cases
        (roll_back_all (config_from active (λ n. empty_config)) sc blame
          (note_blame blame (note_done ap'.done (note_all nodes []))) ap'.attempted).escaped) [
            | inr (f, e) ↦ rw (e, take_back) tt
            | inl e ↦ rw (e, take_back) (rw (and_false _, and_false _, and_false _) tt)
          ]

  conclude-IsEnded :
      (d : Draft Rest A) (active : Option (Active Rest)) (normalized : Inventory Rest)
      (w : World Rest)
      → IsEnded (conclude p sc d active normalized w).1
  unfolding conclude
  conclude-IsEnded d none normalized w = tt
  conclude-IsEnded d (some a) normalized w =
      elim (Option-cases (clear_journal sc.clears a w.journal).1) [
        | inl e ↦ rw (e, conclude) tt
        | inr (f, e) ↦ rw (e, conclude) tt
      ]

  commit_draft-IsEnded :
      (d : Draft Rest A) (active : Option (Active Rest)) (ap' : Applied) (w : World Rest)
      → IsEnded (commit_draft p sc true d active ap' w).1
  unfolding commit_draft
  commit_draft-IsEnded d active ap' w = elim (Result-cases (p.validate d.inventory)) [
    | inr (f, e) ↦ rw (e, commit_draft) (take_back-IsEnded d.nodes active ap' (blame_none f) w)
    | inl (normalized, e) ↦
        elim (Option-cases (replace_with p.same_stored sc.commit d.current normalized).1) [
          | inr (f, e') ↦
              rw (e, e', commit_draft) (take_back-IsEnded d.nodes active ap' (blame_none f) _)
          | inl e' ↦ rw (e, e', commit_draft) (conclude-IsEnded d active normalized _)
        ]
  ]

  apply_draft-IsEnded :
      (d : Draft Rest A) (active : Option (Active Rest)) (w : World Rest)
      → IsEnded (apply_draft p sc true d active w).1
  unfolding apply_draft
  apply_draft-IsEnded d active w =
      elim (Option-cases
        (apply_all (config_from active (p.config_for_node d.inventory)) sc [] [] d.nodes).blame) [
          | inr (b, e) ↦ rw (e, apply_draft) (take_back-IsEnded d.nodes active _ b _)
          | inl e ↦ rw (e, apply_draft) (commit_draft-IsEnded d active _ _)
        ]

  deploy_draft-IsEnded :
      (d : Draft Rest A) (w : World Rest) → IsEnded (deploy_draft p sc true d w).1
  unfolding deploy_draft
  deploy_draft-IsEnded d w =
      elim (Option-cases
        (stage_all p.validation_error (p.config_for_node d.inventory) sc d.nodes).blame) [
          | inr (b, e) ↦ rw (e, deploy_draft) (take_back-IsEnded d.nodes none none_applied b _)
          | inl e ↦ elim (Result-cases (begin_journal p sc d w.journal).1) [
            | inr (f, e') ↦
                rw (e, e', deploy_draft)
                  (take_back-IsEnded d.nodes none none_applied (blame_none f) _)
            | inl (active, e') ↦ rw (e, e', deploy_draft) (apply_draft-IsEnded d active _)
          ]
        ]

  attempt-IsEnded : (w : World Rest) → IsEnded (attempt p sc true w).1
  unfolding attempt
  attempt-IsEnded w = elim (Result-cases (prepare p sc)) [
    | inr (f, e) ↦ rw (e, attempt) (take_back-IsEnded [] none none_applied (blame_none f) _)
    | inl (d, e) ↦ rw (e, attempt) (deploy_draft-IsEnded d _)
  ]

Ended-cases : {Rest A : Type 0} (e : Ended Rest A) → IsEnded e ⊎ (e ≡ again)
Ended-cases (finished i a r) = inl tt
Ended-cases (gave_up f r) = inl tt
Ended-cases again = inr refl

-- What the loop goes on with.
abbrev following :
    {Rest A : Type 0}
    → World Rest × Ended Rest A
    → World Rest × Ended Rest A
    → World Rest × Ended Rest A
following now rest = elim now.1 [
  | finished i a r ↦ (now.0, finished i a r)
  | gave_up f r ↦ (now.0, gave_up f r)
  | again ↦ rest
]

following-IsEnded :
    {Rest A : Type 0} (now rest : World Rest × Ended Rest A)
    → IsEnded now.1
    → following now rest ≡ now
following-IsEnded (w, finished i a r) rest h = refl
following-IsEnded (w, gave_up f r) rest h = refl
following-IsEnded (w, again) rest h = absurd h

following-again :
    {Rest A : Type 0} (now rest : World Rest × Ended Rest A)
    → now.1 ≡ again
    → following now rest ≡ rest
following-again (w, finished i a r) rest e = absurd (cc e)
following-again (w, gave_up f r) rest e = absurd (cc e)
following-again (w, again) rest e = refl

module _ {Rest A : Type 0} (p : Plan Rest A) (scripts : ℕ → Script Rest) where
  -- The outcome is that of the attempt of a number, which asks for no other.
  abbrev pub IsOutcome : ℕ → ℕ → World Rest × Ended Rest A → Type 0
  IsOutcome n left outcome =
      (k : ℕ) × (((n ≤ k) × (k ≤ n + left))
        × ((is_last : Bool) × ((w : World Rest) × ((outcome ≡ attempt p (scripts k) is_last w)
                × IsEnded (attempt p (scripts k) is_last w).1))))

  attempt_from-following :
      (n left : ℕ) (w : World Rest)
      → attempt_from p scripts n (suc left) w
        ≡ following
            (attempt p (scripts n) (left_none left) w)
            (attempt_from p scripts (suc n) left (attempt p (scripts n) (left_none left) w).0)
  unfolding attempt_from
  attempt_from-following n left w = refl

  attempt_from-IsOutcome :
      (n left : ℕ) (w : World Rest) → IsOutcome n left (attempt_from p scripts n (suc left) w)
  attempt_from-IsOutcome n zero w =
      let ended = attempt-IsEnded p (scripts n) w in
      (
        n,
        (
          (omega arith, omega arith),
          (true, (w, (attempt_from-following n zero w ∙ following-IsEnded _ _ ended, ended))),
        ),
      )
  attempt_from-IsOutcome n (suc left) w = elim (Ended-cases (attempt p (scripts n) false w).1) [
    | inl ended ↦ (
      n,
      (
        (omega arith, omega arith),
        (false, (w, (attempt_from-following n (suc left) w ∙ following-IsEnded _ _ ended, ended))),
      ),
    )
    | inr more ↦
        let (k, ((from, to), (is_last, (w', (e, ended))))) =
          attempt_from-IsOutcome (suc n) left (attempt p (scripts n) false w).0 in
        (
          k,
          (
            (omega (arith, from), omega (arith, to)),
            (
              is_last,
              (w', (attempt_from-following n (suc left) w ∙ (following-again _ _ more ∙ e), ended)),
            ),
          ),
        )
  ]

  -- What `mutateAndApply` ends with is what one of its attempts, the third at the latest, ends with,
  -- and that one asks for no other; the error that follows the loop is never thrown.
  pub mutate_and_apply-IsOutcome : (w : World Rest) → IsOutcome 0 2 (mutate_and_apply p scripts w)
  unfolding mutate_and_apply
  mutate_and_apply-IsOutcome w = attempt_from-IsOutcome 0 2 w
