-- ===== src/Deployment/Taken.antt =====
-- What is left when src/deployment-service.ts has taken an attempt back.
use birdbox.Prelude.{
  ◌≡◌, ◌⊎◌, refl, ap, Bool, true, false, Option, none, some, List, [], ◌∷◌, ◌++◌, In, first, later,
  Option-cases, and-true, inl, inr,
}
use birdbox.Deployment.State.{
  ManagedNode, Inventory, ConfigBundle, Active, rollback, Write, ok, Call, applies, rolls_back,
}
use birdbox.Deployment.Script.{Script, Plan, World}
use birdbox.Deployment.Journal.{set_journal_direction-some}
use birdbox.Deployment.Store.{IsStored}
use birdbox.Deployment.Attempt.{Blame, Applied, Draft, prepare, config_from}
use birdbox.Deployment.Undo.{
  Results, RolledBack, undo_node, roll_back_all, mark_rollback, close_journal,
}
use birdbox.Deployment.Service.{
  Ended, finished, gave_up, again, note_all, note_done, note_blame, empty_config, take_back,
}
use birdbox.Deployment.Undone.{
  In-append, In-right, Answer-cases, went_back, went_on, roll_back_all-went,
}

-- The journal in the service's hand is the stored one; without it no config was applied.
abbrev pub Coherent :
    {Rest : Type 0} → Option (Active Rest) → List ManagedNode → Option (Active Rest) → Type 0
Coherent none attempted stored = attempted ≡ []
Coherent {Rest = Rest} (some a) attempted stored = (b : Active Rest) × (stored ≡ some b)

abbrev pub Known : List ManagedNode → List Call → Type 0
Known attempted calls =
    (n : ManagedNode) (c : ConfigBundle) → In (applies n c) calls → In n attempted

pub not-In : {B : Type 0} {n : B} → In n [] → ⊥
not-In i = elim i [ ]

module _ {Rest A : Type 0} (p : Plan Rest A) (sc : Script Rest) where
  -- For each node to which a config was applied, the command that takes it back was sent, and it and
  -- its hook went well.
  abbrev pub AllUndone : List Call → Type 0
  AllUndone calls =
      (n : ManagedNode) (c : ConfigBundle)
      → In (applies n c) calls
      → (d : ConfigBundle) × (In (rolls_back n d) calls × (went_back sc n d ≡ true))

  -- The caller gets its result, or an exception whose report says that the change is applied.
  abbrev pub IsApplied : Ended Rest A → Type 0
  IsApplied (finished i a r) = Unit
  IsApplied (gave_up f none) = ⊥
  IsApplied (gave_up f (some r)) = r.applied ≡ true
  IsApplied again = ⊥

  -- For each node the command to apply a config was sent, and it and its hook went well.
  abbrev pub AllApplied : List ManagedNode → List Call → Type 0
  AllApplied nodes calls =
      (n : ManagedNode)
      → In n nodes
      → (c : ConfigBundle) × (In (applies n c) calls × (went_on sc n c ≡ true))

  -- The inventory is stored that the attempt has prepared and normalised, and the nodes have got it.
  abbrev pub IsMade : World Rest → Type 0
  IsMade w =
      (d : Draft Rest A) × (n : Inventory Rest) × (prepare p sc ≡ ok d)
      × (p.validate d.inventory ≡ ok n)
      × IsStored p.same_stored w.inventory n
      × AllApplied d.nodes w.calls

  -- Without a journal, an attempt is committed or all taken back.
  abbrev pub IsSafe : World Rest × Ended Rest A → Type 0
  IsSafe (w, ended) = w.journal ≡ none → (IsApplied ended × IsMade w) ⊎ AllUndone w.calls

  mark_rollback-some :
      (marks : Write) (active stored : Option (Active Rest)) (b : Active Rest)
      → stored ≡ some b
      → (mark_rollback marks active stored).1 ≡ none
      → ⊥
  unfolding mark_rollback
  mark_rollback-some marks none stored b is e = cc (is, e)
  mark_rollback-some marks (some a) stored b is e =
      set_journal_direction-some marks a rollback b stored is e

  close_journal-clean :
      (clears : Write) (clean : Bool) (a : Active Rest) (stored : Option (Active Rest))
      → (stored ≡ none → ⊥)
      → (close_journal clears clean (some a) stored).1 ≡ none
      → clean ≡ true
  unfolding close_journal
  close_journal-clean clears true a stored h e = refl
  close_journal-clean clears false a stored h e = absurd (h e)

  roll_back_all-calls :
      (config_of : ManagedNode → ConfigBundle) (blame : Blame) (results : Results)
      (ns : List ManagedNode) (n : ManagedNode) (c : ConfigBundle)
      → In (applies n c) (roll_back_all config_of sc blame results ns).calls
      → ⊥
  unfolding roll_back_all
  roll_back_all-calls config_of blame results [] n c i = elim i [ ]
  roll_back_all-calls config_of blame results (m ∷ ns) n c i =
      elim (Answer-cases (sc.roll_back m (config_of m))) [
        | inr (f, e) ↦ shown (λ j. elim j [ ]) (rw (e, roll_back_all) at i)
        | inl (g, (x, (o, e))) ↦
            shown
              (roll_back_all-calls config_of blame
                (undo_node blame m g x o (sc.rollback_hook m) results).1 ns n c)
              (rw (e, roll_back_all) at i)
      ]
    where
      shown :
          {rest : List Call}
          → (In (applies n c) rest → ⊥)
          → In (applies n c) (rolls_back m (config_of m) ∷ rest)
          → ⊥
      shown ih (first e) = cc e
      shown ih (later j) = ih j

  -- The rollback that `take_back` makes.
  abbrev undoing : List ManagedNode → Option (Active Rest) → Applied → Blame → RolledBack
  undoing nodes active ap blame =
      roll_back_all (config_from active (λ n. empty_config)) sc blame
        (note_blame blame (note_done ap.done (note_all nodes []))) ap.attempted

  undone :
      (nodes : List ManagedNode) (active : Option (Active Rest)) (ap : Applied) (blame : Blame)
      (calls : List Call)
      → Known ap.attempted calls
      → (undoing nodes active ap blame).succeeded ≡ true
      → AllUndone (calls ++ (undoing nodes active ap blame).calls)
  undone nodes active ap blame calls known good n c i =
      elim (In-append calls (undoing nodes active ap blame).calls i) [
        | inr j ↦ absurd (roll_back_all-calls _ blame _ ap.attempted n c j)
        | inl j ↦
            let (sent, went) =
              roll_back_all-went sc (config_from active (λ n. empty_config)) blame _ ap.attempted n
                good (known n c j) in
            (config_from active (λ n. empty_config) n, (In-right calls _ sent, went))
      ]

  unapplied :
      (nodes : List ManagedNode) (active : Option (Active Rest)) (ap : Applied) (blame : Blame)
      (calls : List Call)
      → Known ap.attempted calls
      → ap.attempted ≡ []
      → AllUndone (calls ++ (undoing nodes active ap blame).calls)
  unapplied nodes active ap blame calls known empty n c i =
      elim (In-append calls (undoing nodes active ap blame).calls i) [
        | inr j ↦ absurd (roll_back_all-calls _ blame _ ap.attempted n c j)
        | inl j ↦ absurd (let k = known n c j in not-In (rw empty at k))
      ]

  pub take_back-IsSafe :
      (is_last : Bool) (nodes : List ManagedNode) (active : Option (Active Rest)) (ap : Applied)
      (blame : Blame) (w : World Rest)
      → Known ap.attempted w.calls
      → Coherent active ap.attempted w.journal
      → IsSafe (take_back p sc is_last nodes active ap blame w)
  unfolding take_back
  take_back-IsSafe is_last nodes none ap blame w known empty =
      elim (Option-cases (undoing nodes none ap blame).escaped) [
        | inr (f, e) ↦
            rw (e, take_back) (λ gone. inr (unapplied nodes none ap blame w.calls known empty))
        | inl e ↦
            rw (e, take_back) (λ gone. inr (unapplied nodes none ap blame w.calls known empty))
      ]
  take_back-IsSafe is_last nodes (some a) ap blame w known (b, is) =
      elim (Option-cases (undoing nodes (some a) ap blame).escaped) [
        | inr (f, e) ↦
            rw (e, take_back)
              (λ gone. absurd (mark_rollback-some sc.marks (some a) w.journal b is gone))
        | inl e ↦
            rw (e, take_back)
              (λ gone. inr (
                undone nodes (some a) ap blame w.calls known (
                  let clean =
                    close_journal-clean sc.clears_again _ a _
                      (mark_rollback-some sc.marks (some a) w.journal b is) gone in
                  let (_, good) = and-true (mark_rollback sc.marks (some a) w.journal).0 _ clean in
                  good)))
      ]
