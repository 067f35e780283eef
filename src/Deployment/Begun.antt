-- ===== src/Deployment/Begun.antt =====
-- What beginJournal of src/deployment-service.ts leaves in the hand of the service.
use birdbox.Prelude.{
  ◌≡◌, refl, true, false, Option, none, some, List, [], ◌∷◌, is_empty, Bool-cases, Option-cases,
  inl, inr,
}
use birdbox.Deployment.State.{ManagedNode, Active, Result, ok, Result-cases}
use birdbox.Deployment.Script.{Script, Plan}
use birdbox.Deployment.Journal.{open_journal, open_journal-some, new_journal}
use birdbox.Deployment.Attempt.{Draft}
use birdbox.Deployment.Service.{begin_journal}

module _ {Rest A : Type 0} (p : Plan Rest A) (sc : Script Rest) where
  -- Where the service has begun a journal there are nodes, and without one there are none.
  abbrev pub Begun : List ManagedNode → Option (Active Rest) → Option (Active Rest) → Type 0
  Begun nodes none stored = nodes ≡ []
  Begun nodes (some a) stored = (stored ≡ some a) × (is_empty nodes ≡ false)

  is_empty-nil : {B : Type 0} (xs : List B) → is_empty xs ≡ true → xs ≡ []
  is_empty-nil [] e = refl
  is_empty-nil (x ∷ xs) e = absurd (cc e)

  begin_journal-Begun :
      (d : Draft Rest A) (active : Option (Active Rest))
      → (begin_journal p sc d none).1 ≡ ok active
      → Begun d.nodes active (begin_journal p sc d none).0
  unfolding begin_journal
  begin_journal-Begun d active e = elim (Bool-cases (is_empty d.nodes)) [
    | inl empty ↦
        let e' = rw (empty, begin_journal) at e in
        rw (empty, begin_journal) (rw (← is_ok e') (is_empty-nil d.nodes empty))
    | inr full ↦
        let e' = rw (full, begin_journal) at e in
        elim (Result-cases made) [
          | inr (f, n) ↦ absurd (let e'' = rw n at e' in cc e'')
          | inl (a, n) ↦ elim (Option-cases (open_journal sc.opens a none).1) [
            | inr (f, o) ↦ absurd (let e'' = rw (n, o) at e' in cc e'')
            | inl o ↦
                let e'' = rw (n, o) at e' in
                rw (full, begin_journal)
                  (rw (n, ← is_ok e'') (open_journal-some sc.opens a o, full))
          ]
        ]
  ]
    where
      made : Result (Active Rest)
      made =
          new_journal p.config_for_node p.empty_config_for_node sc.journal_id d.current d.inventory
            d.node_ids d.nodes

      is_ok :
          {x y : Option (Active Rest)}
          → ◌≡◌ {A = Result (Option (Active Rest))} (ok x) (ok y)
          → x ≡ y
      is_ok e = cc e

  pub begin_journal-Begun_at :
      (d : Draft Rest A) (active stored : Option (Active Rest))
      → stored ≡ none
      → (begin_journal p sc d stored).1 ≡ ok active
      → Begun d.nodes active (begin_journal p sc d stored).0
  begin_journal-Begun_at d active stored gone e =
      let e' = rw gone at e in rw gone (begin_journal-Begun d active e')
