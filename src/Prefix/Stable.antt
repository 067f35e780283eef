-- ===== src/Prefix/Stable.antt =====
-- What src/bird-prefix.ts has accepted, it accepts again as it is.
use mathlib.Core.Path.{subst}
use birdbox.Prelude.{
  ◌≡◌, ◌⊎◌, refl, ap, ℕ, Bool, true, false, not, ◌||◌, Option, none, some, List, [], ◌∷◌, ◌==◌, ltb,
  filter, if◌then◌else◌, Bool-cases, Option-cases, inl, inr,
}
use birdbox.Prelude.Text.{Text, is_space}
use birdbox.Prefix.Pattern.{
  Checked, valid, refused, without_space, match_pattern, Match, family_refusal, length_refusal,
  range_refusal, refusal, or_next, maximum_for, refusal_of, normalize_bird_prefix_pattern,
  normalize_all, EntriesInput, listed, entries_of, list_refusal, parse_bird_prefix_entries,
}

filter-filter {ℓ} : {A : Type ℓ} (p : A → Bool) (xs : List A) → filter p (filter p xs) ≡ filter p xs
filter-filter p [] = refl
filter-filter p (x ∷ xs) = elim (Bool-cases (p x)) [
  | inl e ↦ rw e (rw e (ap (λ t. x ∷ t) (filter-filter p xs)))
  | inr e ↦ rw e (filter-filter p xs)
]

without_space-without_space : (t : Text) → without_space (without_space t) ≡ without_space t
unfolding without_space
without_space-without_space t = filter-filter (λ u. not (is_space u)) t

Checked-cases :
    {A : Type 0} (c : Checked A) → ((a : A) × (c ≡ valid a)) ⊎ ((m : Text) × (c ≡ refused m))
Checked-cases (valid a) = inl (a, refl)
Checked-cases (refused m) = inr (m, refl)

or_next-none : (a b : Option Text) → or_next a b ≡ none → (a ≡ none) × (b ≡ none)
or_next-none none b e = (refl, e)
or_next-none (some m) b e = absurd (cc e)

-- The message does not matter.
if_none :
    (b : Bool) (s t : Text) (o o' : Option Text)
    → (o ≡ none → o' ≡ none)
    → (if b then some s else o) ≡ none
    → (if b then some t else o') ≡ none
if_none true s t o o' f e = absurd (cc e)
if_none false s t o o' f e = f e

unless_none :
    (b : Bool) (s t : Text)
    → (if b then none else some s) ≡ none
    → (if b then none else some t) ≡ none
unless_none true s t e = refl
unless_none false s t e = absurd (cc e)

family_refusal-none :
    (v w : Text) (family : ℕ) (expected : Option ℕ)
    → family_refusal v family expected ≡ none
    → family_refusal w family expected ≡ none
unfolding family_refusal
family_refusal-none v w family none e = refl
family_refusal-none v w family (some x) e = unless_none (family == x) _ _ e

length_refusal-none :
    (v w : Text) (family n : ℕ)
    → length_refusal v family n ≡ none
    → length_refusal w family n ≡ none
unfolding length_refusal
length_refusal-none v w family n e = if_none _ _ _ none none (λ x. x) e

range_refusal-none :
    (v w : Text) (family : ℕ) (range : Option (ℕ × ℕ))
    → range_refusal v family range ≡ none
    → range_refusal w family range ≡ none
unfolding range_refusal
range_refusal-none v w family none e = refl
range_refusal-none v w family (some (low, high)) e =
    elim (Bool-cases (ltb (maximum_for family) low || ltb (maximum_for family) high)) [
      | inl beyond ↦ absurd (let e' = rw beyond at e in cc e')
      | inr within ↦ elim (Bool-cases (ltb high low)) [
        | inl inverted ↦ absurd (let e' = rw (within, inverted) at e in cc e')
        | inr ordered ↦ rw (within, ordered) refl
      ]
    ]

or_next-both : (a b : Option Text) → a ≡ none → b ≡ none → or_next a b ≡ none
or_next-both a b e f = rw (e, f) refl

refusal-none :
    (v w : Text) (family : ℕ) (expected : Option ℕ) (m : Match)
    → refusal v family expected m ≡ none
    → refusal w family expected m ≡ none
unfolding refusal
refusal-none v w family expected m e = if_none (family == 0) _ _ _ _ inner e
  where
    inner :
        or_next
            (family_refusal v family expected)
            (or_next (length_refusal v family m.prefix_length) (range_refusal v family m.range))
          ≡ none
        → or_next
            (family_refusal w family expected)
            (or_next (length_refusal w family m.prefix_length) (range_refusal w family m.range))
          ≡ none
    inner x =
        let (f, more) = or_next-none (family_refusal v family expected) _ x in
        let (l, r) = or_next-none (length_refusal v family m.prefix_length) _ more in
        or_next-both _ _ (family_refusal-none v w family expected f) (
          or_next-both _ _ (length_refusal-none v w family m.prefix_length l)
            (range_refusal-none v w family m.range r))

module _ (is_ip : Text → ℕ) where
  refusal_of-none :
      (v w : Text) (expected : Option ℕ) (o : Option Match)
      → refusal_of is_ip v expected o ≡ none
      → refusal_of is_ip w expected o ≡ none
  unfolding refusal_of
  refusal_of-none v w expected none e = absurd (cc e)
  refusal_of-none v w expected (some m) e = refusal-none v w (is_ip m.address) expected m e

  normalize-again :
      (expected : Option ℕ) (value entry : Text)
      → normalize_bird_prefix_pattern is_ip expected value ≡ valid entry
      → normalize_bird_prefix_pattern is_ip expected entry ≡ valid entry
  unfolding normalize_bird_prefix_pattern
  normalize-again expected value entry e =
      elim (Option-cases (refusal_of is_ip value expected (match_pattern (without_space value)))) [
        | inr (m, is) ↦ absurd (let e' = rw (is, normalize_bird_prefix_pattern) at e in cc e')
        | inl fine ↦
            let same = rw (fine, normalize_bird_prefix_pattern) at e in
            subst (λ t. normalize_bird_prefix_pattern is_ip expected t ≡ valid t) (entry_of same)
              (rw
                (
                  without_space-without_space value,
                  refusal_of-none value (without_space value) expected
                      (match_pattern (without_space value)) fine,
                  normalize_bird_prefix_pattern,
                )
                (ap valid (without_space-without_space value)))
      ]
    where
      text_of : Checked Text → Text
      text_of (valid t) = t
      text_of (refused m) = m

      entry_of : valid (without_space value) ≡ valid entry → without_space value ≡ entry
      entry_of same = ap text_of same

  abbrev entries_in : Checked (List Text) → List Text
  entries_in (valid entries) = entries
  entries_in (refused m) = []

  normalize_all-again :
      (expected : Option ℕ) (values entries : List Text)
      → normalize_all is_ip expected values ≡ valid entries
      → normalize_all is_ip expected entries ≡ valid entries
  unfolding normalize_all
  normalize_all-again expected [] entries e =
      subst (λ t. normalize_all is_ip expected t ≡ valid t) (ap entries_in e) refl
  normalize_all-again expected (v ∷ vs) entries e =
      elim (Checked-cases (normalize_bird_prefix_pattern is_ip expected v)) [
        | inr (m, is) ↦ absurd (let e' = rw (is, normalize_all) at e in cc e')
        | inl (entry, is) ↦ elim (Checked-cases (normalize_all is_ip expected vs)) [
          | inr (m, are) ↦ absurd (let e' = rw (is, normalize_all, are) at e in cc e')
          | inl (rest, are) ↦
              subst (λ t. normalize_all is_ip expected t ≡ valid t)
                (ap entries_in (rw (is, normalize_all, are) at e))
                (rw
                  (
                    normalize-again expected v entry is,
                    normalize_all,
                    normalize_all-again expected vs rest are,
                  )
                  refl)
        ]
      ]

  -- A list of prefixes that has been accepted, as a list or as a text, is accepted again, as the same
  -- list.
  pub parse-again :
      (expected : Option ℕ) (maximum_entries : ℕ) (input : EntriesInput) (entries : List Text)
      → parse_bird_prefix_entries is_ip expected maximum_entries input ≡ valid entries
      → parse_bird_prefix_entries is_ip expected maximum_entries (listed entries) ≡ valid entries
  unfolding parse_bird_prefix_entries entries_of
  parse-again expected maximum_entries input entries e =
      elim (Checked-cases (normalize_all is_ip expected (entries_of input))) [
        | inr (m, is) ↦ absurd (let e' = rw (is, parse_bird_prefix_entries) at e in cc e')
        | inl (es, is) ↦ elim (Option-cases (list_refusal maximum_entries es)) [
          | inr (m, wrong) ↦
              absurd (let e' = rw (is, parse_bird_prefix_entries, wrong) at e in cc e')
          | inl fine ↦
              subst
                (λ t. parse_bird_prefix_entries is_ip expected maximum_entries (listed t) ≡ valid t)
                (ap entries_in (rw (is, parse_bird_prefix_entries, fine) at e))
                (rw
                  (
                    normalize_all-again expected (entries_of input) es is,
                    parse_bird_prefix_entries,
                    fine,
                  )
                  refl)
        ]
      ]
