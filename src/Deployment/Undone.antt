-- ===== src/Deployment/Undone.antt =====
-- Which commands src/deployment-service.ts has sent when it takes an attempt back.
use birdbox.Prelude.{
  ◌≡◌, ◌⊎◌, refl, ap, Bool, true, false, not, ◌&&◌, Option, none, some, List, [], ◌∷◌, ◌++◌, arith,
  is_some, In, first, later, Option-cases, and-true, inl, inr,
}
use birdbox.Prelude.Text.{Text}
use birdbox.Deployment.State.{
  ManagedNode, ConfigBundle, Failure, Answer, replied, threw, failure_of, Call, stages, applies,
  rolls_back,
}
use birdbox.Deployment.Script.{Script}
use birdbox.Deployment.Attempt.{Blame, stage_failure, stage_all, apply_failure, apply_all}
use birdbox.Deployment.Undo.{Results, RolledBack, undo_node, roll_back_all}

pub In-append {ℓ} : {A : Type ℓ} (xs ys : List A) {x : A} → In x (xs ++ ys) → In x xs ⊎ In x ys
In-append [] ys i = inr i
In-append (z ∷ xs) ys (first e) = inl (first e)
In-append (z ∷ xs) ys (later i) = elim (In-append xs ys i) [ inl j ↦ inl (later j) | inr j ↦ inr j ]

pub In-right {ℓ} : {A : Type ℓ} (xs ys : List A) {x : A} → In x ys → In x (xs ++ ys)
In-right [] ys i = i
In-right (z ∷ xs) ys i = later (In-right xs ys i)

pub Answer-cases :
    (a : Answer)
    → ((g : Bool) × ((e : Text) × ((o : Text) × (a ≡ replied g e o))))
      ⊎ ((f : Failure) × (a ≡ threw f))
Answer-cases (replied g e o) = inl (g, (e, (o, refl)))
Answer-cases (threw f) = inr (f, refl)

abbrev pub answered : Answer → Bool
answered (replied good e o) = good
answered (threw f) = false

module _ {Rest : Type 0} (sc : Script Rest) where
  -- The command and the hook that take a node back have both gone well.
  abbrev pub went_back : ManagedNode → ConfigBundle → Bool
  went_back n c = answered (sc.roll_back n c) && not (is_some (sc.rollback_hook n))

  -- The command that applies a config and its hook have both gone well.
  abbrev pub went_on : ManagedNode → ConfigBundle → Bool
  went_on n c = answered (sc.apply n c) && not (is_some (sc.apply_hook n))

  pub stage_all-calls :
      (wording : Text → Text → Text → Text) (config_of : ManagedNode → ConfigBundle)
      (ns : List ManagedNode) (n : ManagedNode) (c : ConfigBundle)
      → In (applies n c) (stage_all wording config_of sc ns).calls
      → ⊥
  unfolding stage_all
  stage_all-calls wording config_of [] n c i = elim i [ ]
  stage_all-calls wording config_of (m ∷ ns) n c i =
      elim (Option-cases (stage_failure wording m (config_of m) (sc.stage m (config_of m)))) [
        | inr (f, e) ↦ one (rw (e, stage_all) at i)
        | inl e ↦ more (stage_all-calls wording config_of ns n c) (rw (e, stage_all) at i)
      ]
    where
      one : In (applies n c) (stages m (config_of m) ∷ []) → ⊥
      one (first e) = cc e
      one (later j) = elim j [ ]

      more :
          (In (applies n c) (stage_all wording config_of sc ns).calls → ⊥)
          → In (applies n c) (stages m (config_of m) ∷ (stage_all wording config_of sc ns).calls)
          → ⊥
      more ih (first e) = cc e
      more ih (later j) = ih j

  apply_all-grows :
      (config_of : ManagedNode → ConfigBundle) (attempted done ns : List ManagedNode)
      (n : ManagedNode)
      → In n attempted
      → In n (apply_all config_of sc attempted done ns).attempted
  unfolding apply_all
  apply_all-grows config_of attempted done [] n i = i
  apply_all-grows config_of attempted done (m ∷ ns) n i =
      elim (Option-cases (apply_failure sc m (config_of m))) [
        | inr (f, e) ↦ rw (e, apply_all) (later i)
        | inl e ↦
            rw (e, apply_all) (apply_all-grows config_of (m ∷ attempted) (m ∷ done) ns n (later i))
      ]

  pub apply_all-calls :
      (config_of : ManagedNode → ConfigBundle) (attempted done ns : List ManagedNode)
      (n : ManagedNode) (c : ConfigBundle)
      → In (applies n c) (apply_all config_of sc attempted done ns).calls
      → In n (apply_all config_of sc attempted done ns).attempted
  unfolding apply_all
  apply_all-calls config_of attempted done [] n c i = elim i [ ]
  apply_all-calls config_of attempted done (m ∷ ns) n c i =
      elim (Option-cases (apply_failure sc m (config_of m))) [
        | inr (f, e) ↦ rw (e, apply_all) (one (rw (e, apply_all) at i))
        | inl e ↦
            rw (e, apply_all)
              (more (apply_all-calls config_of (m ∷ attempted) (m ∷ done) ns n c)
                (rw (e, apply_all) at i))
      ]
    where
      node_of : Call → ManagedNode
      node_of (stages k d) = k
      node_of (applies k d) = k
      node_of (rolls_back k d) = k

      one : In (applies n c) (applies m (config_of m) ∷ []) → In n (m ∷ attempted)
      one (first e) = first (ap node_of e)
      one (later j) = elim j [ ]

      more :
          (In (applies n c) (apply_all config_of sc (m ∷ attempted) (m ∷ done) ns).calls
            → In n (apply_all config_of sc (m ∷ attempted) (m ∷ done) ns).attempted)
          → In (applies n c) (
              applies m (config_of m)
              ∷ (apply_all config_of sc (m ∷ attempted) (m ∷ done) ns).calls)
          → In n (apply_all config_of sc (m ∷ attempted) (m ∷ done) ns).attempted
      more ih (first e) =
          apply_all-grows config_of (m ∷ attempted) (m ∷ done) ns n (first (ap node_of e))
      more ih (later j) = ih j

  apply_failure-none :
      (n : ManagedNode) (c : ConfigBundle) → apply_failure sc n c ≡ none → went_on n c ≡ true
  unfolding apply_failure failure_of
  apply_failure-none n c e = well (sc.apply n c) refl e
    where
      hooked : (h : Option Failure) → h ≡ none → not (is_some h) ≡ true
      hooked h e = rw e refl

      well :
          (a : Answer)
          → sc.apply n c ≡ a
          → apply_failure sc n c ≡ none
          → (answered (sc.apply n c) && not (is_some (sc.apply_hook n))) ≡ true
      well (replied true x o) is e = let e' = rw (is, apply_failure) at e in rw is (hooked _ e')
      well (replied false x o) is e = absurd (let e' = rw (is, apply_failure) at e in cc e')
      well (threw f) is e = absurd (let e' = rw (is, apply_failure) at e in cc e')

  -- Where no config was refused, each node was sent the command to apply its config.
  pub apply_all-went :
      (config_of : ManagedNode → ConfigBundle) (attempted done ns : List ManagedNode)
      → (apply_all config_of sc attempted done ns).blame ≡ none
      → (n : ManagedNode) → In n ns
      → In (applies n (config_of n)) (apply_all config_of sc attempted done ns).calls
        × (went_on n (config_of n) ≡ true)
  unfolding apply_all
  apply_all-went config_of attempted done [] b n i = elim i [ ]
  apply_all-went config_of attempted done (m ∷ ns) b n i =
      elim (Option-cases (apply_failure sc m (config_of m))) [
        | inr (f, e) ↦ absurd (let b' = rw (e, apply_all) at b in cc b')
        | inl e ↦
            let b' = rw (e, apply_all) at b in
            rw (e, apply_all)
              (step (apply_failure-none m (config_of m) e)
                (apply_all-went config_of (m ∷ attempted) (m ∷ done) ns b' n) i)
      ]
    where
      step :
          {rest : List Call}
          → went_on m (config_of m) ≡ true
          → (In n ns → In (applies n (config_of n)) rest × (went_on n (config_of n) ≡ true))
          → In n (m ∷ ns)
          → In (applies n (config_of n)) (applies m (config_of m) ∷ rest)
            × (went_on n (config_of n) ≡ true)
      step well ih (first same) = rw same (first refl, well)
      step well ih (later j) = let (sent, on) = ih j in (later sent, on)

  undo_node-good :
      (blame : Blame) (n : ManagedNode) (good : Bool) (e o : Text) (hook : Option Failure)
      (results : Results)
      → (undo_node blame n good e o hook results).0 ≡ (good && not (is_some hook))
  unfolding undo_node
  undo_node-good blame n good e o none results = ground arith
  undo_node-good blame n good e o (some f) results = ground arith

  pub roll_back_all-went :
      (config_of : ManagedNode → ConfigBundle) (blame : Blame) (results : Results)
      (ns : List ManagedNode) (n : ManagedNode)
      → (roll_back_all config_of sc blame results ns).succeeded ≡ true
      → In n ns
      → In (rolls_back n (config_of n)) (roll_back_all config_of sc blame results ns).calls
        × (went_back n (config_of n) ≡ true)
  unfolding roll_back_all
  roll_back_all-went config_of blame results [] n h i = elim i [ ]
  roll_back_all-went config_of blame results (m ∷ ns) n h i =
      elim (Answer-cases (sc.roll_back m (config_of m))) [
        | inr (f, e) ↦ absurd (let h' = rw (e, roll_back_all) at h in cc h')
        | inl (g, (x, (o, e))) ↦
            rw (e, roll_back_all)
              (step g x o (λ r k. roll_back_all-went config_of blame r ns n k) e
                (rw (e, roll_back_all) at h) i)
      ]
    where
      rest : Bool → Text → Text → RolledBack
      rest g x o =
          roll_back_all config_of sc blame (undo_node blame m g x o (sc.rollback_hook m) results).1
            ns

      step :
          (g : Bool) (x o : Text)
          → ((r : Results)
              → (roll_back_all config_of sc blame r ns).succeeded ≡ true
              → In n ns
              → In (rolls_back n (config_of n)) (roll_back_all config_of sc blame r ns).calls
                × (went_back n (config_of n) ≡ true))
          → sc.roll_back m (config_of m) ≡ replied g x o
          → ((undo_node blame m g x o (sc.rollback_hook m) results).0 && (rest g x o).succeeded)
            ≡ true
          → In n (m ∷ ns)
          → In (rolls_back n (config_of n)) (rolls_back m (config_of m) ∷ (rest g x o).calls)
            × (went_back n (config_of n) ≡ true)
      step g x o ih e h (first same) =
          let (well, _) = and-true _ (rest g x o).succeeded h in
          let well' = rw (undo_node-good blame m g x o (sc.rollback_hook m) results) at well in
          rw same (first refl, rw e well')
      step g x o ih e h (later j) =
          let (_, more) = and-true (undo_node blame m g x o (sc.rollback_hook m) results).0 _ h in
          let (sent, well) = ih _ more j in (later sent, well)
