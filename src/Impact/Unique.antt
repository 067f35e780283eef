-- ===== src/Impact/Unique.antt =====
-- The ids of src/resource-impact.ts: each is listed once, and none is lost.
use birdbox.Prelude.{
  ℕ, ◌+◌, ◌≤◌, ◌≡◌, refl, ◌∙◌, String, Bool, true, false, ◌||◌, ◌&&◌, not, any, none, some, Option,
  List, [], ◌∷◌, ◌++◌, arith, str_eq, eq_iff, count, Bool-cases, inl, inr, count-append,
}
use birdbox.Impact.{given_ids, has_id, into_set, unique_node_ids}

-- How often an id stands in a list.
abbrev pub times : String → List String → ℕ
times id = count (λ x. str_eq x id)

absent-times : (id : String) (ids : List String) → has_id id ids ≡ false → times id ids ≡ 0
absent-times id [] h = refl
absent-times id (x ∷ ids) h = ground (arith, absent-times id ids)

has_id-append :
    (id : String) (xs ys : List String) → has_id id (xs ++ ys) ≡ (has_id id xs || has_id id ys)
has_id-append id [] ys = refl
has_id-append id (x ∷ xs) ys = ground (arith, has_id-append id xs ys)

into_set-has :
    (seen ids : List String) (id : String)
    → has_id id (into_set seen ids) ≡ (has_id id seen || has_id id ids)
unfolding into_set
into_set-has seen [] id = ground arith
into_set-has seen (x ∷ ids) id = elim (Bool-cases (has_id x seen)) [
  | inl there ↦ rw there (into_set-has seen ids id ∙ absorbed there)
  | inr new ↦ rw new (
      into_set-has (seen ++ x ∷ []) ids id
      ∙ rw (has_id-append id seen (x ∷ [])) (or_assoc (has_id id seen) (str_eq x id) _))
]
  where
    or_assoc : (a b c : Bool) → ((a || (b || false)) || c) ≡ (a || (b || c))
    or_assoc a b c = ground arith

    absorbed :
        has_id x seen ≡ true
        → (has_id id seen || has_id id ids) ≡ (has_id id seen || (str_eq x id || has_id id ids))
    absorbed there = elim (Bool-cases (str_eq x id)) [
      | inl same ↦ let here = rw ((eq_iff x id).0 same) at there in rw here refl
      | inr other ↦ rw other refl
    ]

into_set-once :
    (seen ids : List String) (id : String) → times id seen ≤ 1 → times id (into_set seen ids) ≤ 1
unfolding into_set
into_set-once seen [] id h = h
into_set-once seen (x ∷ ids) id h = elim (Bool-cases (has_id x seen)) [
  | inl there ↦ rw there (into_set-once seen ids id h)
  | inr new ↦ rw new (
      into_set-once (seen ++ x ∷ []) ids id
        (rw (count-append (λ y. str_eq y id) seen (x ∷ [])) (one_more new)))
]
  where
    one_more : has_id x seen ≡ false → times id seen + times id (x ∷ []) ≤ 1
    one_more new = elim (Bool-cases (str_eq x id)) [
      | inl same ↦
          let gone = rw ((eq_iff x id).0 same) at new in
          rw same (omega (arith, absent-times id seen gone))
      | inr other ↦ rw other (omega (arith, h))
    ]

-- The id stands in the group.
abbrev pub is_id : String → Option String → Bool
is_id id none = false
is_id id (some x) = str_eq x id

left_out : (e s r : Bool) → (s ≡ true → e ≡ true) → (not e && r) ≡ (not e && (s || r))
left_out true s r h = refl
left_out false true r h = absurd (cc (h refl))
left_out false false r h = refl

kept : (e s r : Bool) → (s ≡ true → e ≡ false) → (s || (not e && r)) ≡ (not e && (s || r))
kept false s r h = refl
kept true true r h = absurd (cc (h refl))
kept true false r h = refl

given_ids-has :
    (groups : List (Option String)) (id : String)
    → has_id id (given_ids groups) ≡ (not (str_eq id "") && any (is_id id) groups)
unfolding given_ids
given_ids-has [] id = ground arith
given_ids-has (none ∷ groups) id = given_ids-has groups id
given_ids-has (some x ∷ groups) id = elim (Bool-cases (str_eq x "")) [
  | inl empty ↦
      rw (empty, given_ids-has groups id)
        (left_out (str_eq id "") (str_eq x id) _
          (λ e. let same = rw ((eq_iff x id).0 e) at empty in same))
  | inr full ↦
      rw (full, given_ids-has groups id)
        (kept (str_eq id "") (str_eq x id) _
          (λ e. let same = rw ((eq_iff x id).0 e) at full in same))
]

-- Each id is listed at most once, and an id is listed exactly if it is not empty and stands in one of
-- the groups.
pub unique_node_ids-once :
    (groups : List (Option String)) (id : String)
    → (times id (unique_node_ids groups) ≤ 1)
      × (has_id id (unique_node_ids groups) ≡ (not (str_eq id "") && any (is_id id) groups))
unfolding unique_node_ids
unique_node_ids-once groups id = (
  into_set-once [] (given_ids groups) id (omega arith),
  into_set-has [] (given_ids groups) id ∙ given_ids-has groups id,
)
