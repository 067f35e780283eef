-- ===== src/Database/Retries.antt =====
-- How the loops of src/database.ts that try again end.
use birdbox.Prelude.{
  ◌≡◌, ◌⊎◌, refl, ℕ, zero, suc, ◌+◌, ◌*◌, ◌≤◌, ◌<◌, Bool, true, false, not, ◌||◌, List, [], ◌∷◌,
  leb, ◌==◌, arith, Bool-cases, inl, inr, length,
}
use birdbox.Database.Transaction.{
  Fault, Attempt, commits, breaks, unconnected, is_retryable, Ended, returned, thrown, settled,
  mutate_from, mutate_state_retried,
}

abbrev pub is_over : {A : Type 0} → Attempt A → Bool
is_over (commits a) = true
is_over (breaks f) = not (is_retryable f)
is_over (unconnected f) = true

abbrev pub end_of : {A : Type 0} → Attempt A → Ended A
end_of (commits a) = returned a
end_of (breaks f) = thrown f
end_of (unconnected f) = thrown f

Attempt-cases :
    {A : Type 0} (t : Attempt A)
    → ((a : A) × (t ≡ commits a))
      ⊎ (((f : Fault) × (t ≡ breaks f)) ⊎ ((f : Fault) × (t ≡ unconnected f)))
Attempt-cases (commits a) = inl (a, refl)
Attempt-cases (breaks f) = inr (inl (f, refl))
Attempt-cases (unconnected f) = inr (inr (f, refl))

leq_cases : (a b : ℕ) → a ≤ b → (a ≡ b) ⊎ (suc a ≤ b)
leq_cases a b h = elim (Bool-cases (a == b)) [ inl e ↦ inl (same e) | inr e ↦ inr (next e) ]
  where
    same : (a == b) ≡ true → a ≡ b
    same e = ground arith

    next : (a == b) ≡ false → suc a ≤ b
    next e = ground arith

module _ {A : Type 0} (jitter : ℕ → ℕ) (attempts : ℕ → Attempt A) where
  settled-last :
      (n : ℕ) (f : Fault) (rest : List ℕ × Ended A)
      → (not (is_retryable f) ≡ true) ⊎ (n + 1 ≡ 8)
      → settled jitter attempts n f rest ≡ ([], thrown f)
  unfolding settled
  settled-last n f rest (inl over) = rw over refl
  settled-last n f rest (inr e) = rw (full (not (is_retryable f)) n e) refl
    where
      full : (b : Bool) (n : ℕ) → n + 1 ≡ 8 → (b || leb 8 (n + 1)) ≡ true
      full b n h = ground arith

  settled-next :
      (n : ℕ) (f : Fault) (rest : List ℕ × Ended A)
      → not (is_retryable f) ≡ false
      → n + 1 < 8
      → settled jitter attempts n f rest ≡ ((20 * (n + 1) + jitter n) ∷ rest.0, rest.1)
  unfolding settled
  settled-next n f rest again room = rw (again, short n room) refl
    where
      short : (n : ℕ) → n + 1 < 8 → leb 8 (n + 1) ≡ false
      short n h = ground arith

  abbrev IsLast : ℕ → Type 0
  IsLast n = (is_over (attempts n) ≡ true) ⊎ (n + 1 ≡ 8)

  mutate_from-IsLast :
      (n left : ℕ)
      → IsLast n
      → (length (mutate_from jitter attempts n (suc left)).0 ≡ 0)
        × ((mutate_from jitter attempts n (suc left)).1 ≡ end_of (attempts n))
  unfolding mutate_from
  mutate_from-IsLast n left here = elim (Attempt-cases (attempts n)) [
    | inl (a, e) ↦ rw (e, mutate_from) (refl, refl)
    | inr (inr (f, e)) ↦ rw (e, mutate_from) (refl, refl)
    | inr (inl (f, e)) ↦
        rw
          (
            e,
            mutate_from,
            settled-last n f (mutate_from jitter attempts (suc n) left) (rw e at here),
          )
          (refl, refl)
  ]

  -- The loop that is at attempt n ends with attempt m.
  abbrev pub EndsFrom : ℕ → List ℕ × Ended A → Type 0
  EndsFrom n r =
      (m : ℕ) × (((n ≤ m) × (m < 8))
        × (((i : ℕ) → n ≤ i → i < m → is_over (attempts i) ≡ false)
            × (((is_over (attempts m) ≡ true) ⊎ (m + 1 ≡ 8))
                × ((length r.0 + n ≡ m) × (r.1 ≡ end_of (attempts m))))))

  EndsFrom-now :
      (n left : ℕ) → n < 8 → IsLast n → EndsFrom n (mutate_from jitter attempts n (suc left))
  EndsFrom-now n left within here =
      let (none_yet, end) = mutate_from-IsLast n left here in
      (
        n,
        (
          (omega arith, within),
          (λ i a b. absurd (omega (arith, a, b)), (here, (omega (arith, none_yet), end))),
        ),
      )

  EndsFrom-next :
      (n left : ℕ)
      → n + 1 < 8
      → is_over (attempts n) ≡ false
      → EndsFrom (suc n) (mutate_from jitter attempts (suc n) left)
      → EndsFrom n (mutate_from jitter attempts n (suc left))
  unfolding mutate_from
  EndsFrom-next n left room again (m, ((from, within), (before, (here, (waited, end))))) =
      elim (Attempt-cases (attempts n)) [
        | inl (a, e) ↦ absurd (let e' = rw e at again in cc e')
        | inr (inr (f, e)) ↦ absurd (let e' = rw e at again in cc e')
        | inr (inl (f, e)) ↦
            rw
              (
                e,
                mutate_from,
                settled-next n f (mutate_from jitter attempts (suc n) left) (rw e at again) room,
              )
              (m, ((omega (arith, from), within), (earlier, (here, (omega (arith, waited), end)))))
      ]
    where
      earlier : (i : ℕ) → n ≤ i → i < m → is_over (attempts i) ≡ false
      earlier i a b = elim (leq_cases n i a) [
        | inl e ↦ rw e at again
        | inr later ↦ before i later b
      ]

  mutate_from-ends :
      (n left : ℕ) → n + suc left ≡ 8 → EndsFrom n (mutate_from jitter attempts n (suc left))
  mutate_from-ends n zero total =
      EndsFrom-now n zero (omega (arith, total)) (inr (omega (arith, total)))
  mutate_from-ends n (suc left) total = elim (Bool-cases (is_over (attempts n))) [
    | inl over ↦ EndsFrom-now n (suc left) (omega (arith, total)) (inl over)
    | inr again ↦
        EndsFrom-next n (suc left) (omega (arith, total)) again
          (mutate_from-ends (suc n) left (omega (arith, total)))
  ]

  -- The loop ends with one of its eight attempts, and as that one ended: the first that commits or
  -- breaks for a reason that trying again cannot mend, or gets no connection, or else the last. There
  -- is one wait for each attempt before it.
  pub mutate_state_retried-ends : EndsFrom 0 (mutate_state_retried jitter attempts)
  unfolding mutate_state_retried
  mutate_state_retried-ends = mutate_from-ends 0 7 refl
