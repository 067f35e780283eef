-- ===== src/Prefix/Separated.antt =====
-- Entries that are written one after another are found again, as they were.
use birdbox.Prelude.{
  ◌≡◌, refl, sym, ap, ◌∙◌, ℕ, suc, ◌+◌, ◌-◌, ◌≤◌, Bool, true, false, not, ◌&&◌, ◌||◌, List, [], ◌∷◌,
  ◌++◌, ◌==◌, ltb, if◌then◌else◌, is_empty, arith, Bool-cases, and-true, inl, inr, append_assoc,
  append_nil, All,
}
use birdbox.Prelude.Text.{Text, trim, trim_start, trim_end}
use birdbox.Prefix.Entries.{
  is_separator, count_if, keep, split_from, unbracketed, ends_bracket, without_last,
  split_bird_prefix_entries,
}

-- Whether the braces of a text close, and no separator stands outside of them.
abbrev pub is_closed : ℕ → Text → Bool
is_closed depth [] = depth == 0
is_closed depth (u ∷ us) =
    if u == 123
    then is_closed (suc depth) us
    else if u == 125
    then ltb 0 depth && is_closed (depth - 1) us
    else (not (is_separator u) || ltb 0 depth) && is_closed depth us

pub record IsEntry (entry : Text) : Type 0 where
  pub closed : is_closed 0 entry ≡ true
  pub trimmed : trim entry ≡ entry
  pub something : is_empty entry ≡ false

split_from-more :
    (opened closed : ℕ) (before : Text) (u : ℕ) (us : Text)
    → (is_separator u && count_if (u == 123) opened == count_if (u == 125) closed) ≡ false
    → split_from opened closed before (u ∷ us)
      ≡ split_from (count_if (u == 123) opened) (count_if (u == 125) closed) (before ++ u ∷ []) us
unfolding split_from
split_from-more opened closed before u us e = rw e refl

-- The loop passes a text whose braces close, and finds as many opened as closed.
abbrev Passed : ℕ → ℕ → Text → Text → Text → Type 0
Passed opened closed before entry rest =
    (k : ℕ) × (split_from opened closed before (entry ++ rest)
      ≡ split_from k k (before ++ entry) rest)

Passed-one :
    (opened closed opened' closed' : ℕ) (before : Text) (u : ℕ) (us rest : Text)
    → (is_separator u && count_if (u == 123) opened == count_if (u == 125) closed) ≡ false
    → count_if (u == 123) opened ≡ opened'
    → count_if (u == 125) closed ≡ closed'
    → Passed opened' closed' (before ++ u ∷ []) us rest
    → Passed opened closed before (u ∷ us) rest
Passed-one opened closed opened' closed' before u us rest stays o c (k, e) = (
  k,
  split_from-more opened closed before u (us ++ rest) stays
      ∙ (ap (λ n. split_from n (count_if (u == 125) closed) (before ++ u ∷ []) (us ++ rest)) o
          ∙ (ap (λ n. split_from opened' n (before ++ u ∷ []) (us ++ rest)) c
              ∙ (e ∙ ap (λ t. split_from k k t rest) (append_assoc before (u ∷ []) us)))),
)

split_from-closed :
    (depth opened closed : ℕ) (before entry rest : Text)
    → opened ≡ depth + closed
    → is_closed depth entry ≡ true
    → Passed opened closed before entry rest
split_from-closed depth opened closed before [] rest at_depth h = (
  closed,
  ap (λ n. split_from n closed before rest) (level depth h at_depth)
      ∙ ap (λ t. split_from closed closed t rest) (sym (append_nil before)),
)
  where
    level : (depth : ℕ) → (depth == 0) ≡ true → opened ≡ depth + closed → opened ≡ closed
    level depth h e = ground arith
split_from-closed depth opened closed before (u ∷ us) rest at_depth h =
    elim (Bool-cases (u == 123)) [
      | inl opens ↦
          Passed-one opened closed (suc opened) closed before u us rest (opening u opens _)
            (ap (λ b. count_if b opened) opens) (ap (λ b. count_if b closed) (only u opens))
            (split_from-closed (suc depth) (suc opened) closed (before ++ u ∷ []) us rest
              (omega (arith, at_depth)) (rw opens at h))
      | inr inside ↦ elim (Bool-cases (u == 125)) [
        | inl closes ↦
            let h' = rw (inside, closes) at h in
            let (deep, more) = and-true (ltb 0 depth) _ h' in
            Passed-one opened closed opened (suc closed) before u us rest (closing u closes _)
              (ap (λ b. count_if b opened) inside) (ap (λ b. count_if b closed) closes)
              (split_from-closed (depth - 1) opened (suc closed) (before ++ u ∷ []) us rest
                (up depth deep at_depth) more)
        | inr plain ↦
            let h' = rw (inside, plain) at h in
            let (held, more) = and-true (not (is_separator u) || ltb 0 depth) _ h' in
            Passed-one opened closed opened closed before u us rest
              (rw (inside, plain) (stays (is_separator u) depth opened closed at_depth held))
              (ap (λ b. count_if b opened) inside) (ap (λ b. count_if b closed) plain)
              (split_from-closed depth opened closed (before ++ u ∷ []) us rest at_depth more)
      ]
    ]
  where
    opening : (u : ℕ) → (u == 123) ≡ true → (b : Bool) → (is_separator u && b) ≡ false
    opening u e b = ground arith

    closing : (u : ℕ) → (u == 125) ≡ true → (b : Bool) → (is_separator u && b) ≡ false
    closing u e b = ground arith

    only : (u : ℕ) → (u == 123) ≡ true → (u == 125) ≡ false
    only u e = ground arith

    up :
        (depth : ℕ) → ltb 0 depth ≡ true → opened ≡ depth + closed → opened ≡ depth - 1 + suc closed
    up depth e at_it = omega (arith, positive depth e, at_it)
      where
        positive : (n : ℕ) → ltb 0 n ≡ true → 1 ≤ n
        positive n h = ground arith

    stays :
        (s : Bool) (depth opened closed : ℕ)
        → opened ≡ depth + closed
        → (not s || ltb 0 depth) ≡ true
        → (s && opened == closed) ≡ false
    stays s depth opened closed e h = ground arith

-- The entries with a comma between each two.
unfoldable pub joined : List Text → Text
joined [] = []
joined (e ∷ []) = e
joined (e ∷ f ∷ es) = e ++ 44 ∷ joined (f ∷ es)

keep-entry : (e : Text) (es : List Text) → IsEntry e → keep (trim e) es ≡ e ∷ es
keep-entry e es h = rw (h.trimmed, h.something) refl

equal_self : (n : ℕ) → (n == n) ≡ true
equal_self n = ground arith

split_from-comma :
    (k : ℕ) (entry rest : Text)
    → split_from k k entry (44 ∷ rest) ≡ keep (trim entry) (split_from k k [] rest)
unfolding split_from
split_from-comma k entry rest = rw (equal_self k) refl

split_from-joined : (k : ℕ) (es : List Text) → All IsEntry es → split_from k k [] (joined es) ≡ es
unfolding split_from joined trim trim_end trim_start
split_from-joined k [] h = refl
split_from-joined k (e ∷ []) (h, hs) =
    let (n, passed) = split_from-closed 0 k k [] e [] (omega arith) h.closed in
    ap (split_from k k []) (sym (append_nil e)) ∙ (passed ∙ keep-entry e [] h)
split_from-joined k (e ∷ f ∷ es) (h, hs) =
    let (n, passed) = split_from-closed 0 k k [] e (44 ∷ joined (f ∷ es)) (omega arith) h.closed in
    passed
    ∙ (split_from-comma n e (joined (f ∷ es))
        ∙ (keep-entry e _ h ∙ ap (λ t. e ∷ t) (split_from-joined n (f ∷ es) hs)))

is_empty-bracket : (xs : Text) → is_empty (xs ++ 93 ∷ []) ≡ false
is_empty-bracket [] = refl
is_empty-bracket (x ∷ xs) = refl

trim_end-bracket : (xs : Text) → trim_end (xs ++ 93 ∷ []) ≡ xs ++ 93 ∷ []
unfolding trim_end
trim_end-bracket [] = refl
trim_end-bracket (x ∷ xs) = rw (trim_end-bracket xs, is_empty-bracket xs) refl

ends_bracket-bracket : (xs : Text) → ends_bracket (xs ++ 93 ∷ []) ≡ true
ends_bracket-bracket [] = refl
ends_bracket-bracket (x ∷ []) = refl
ends_bracket-bracket (x ∷ y ∷ ys) = ends_bracket-bracket (y ∷ ys)

without_last-bracket : (xs : Text) → without_last (xs ++ 93 ∷ []) ≡ xs
without_last-bracket [] = refl
without_last-bracket (x ∷ []) = refl
without_last-bracket (x ∷ y ∷ ys) = ap (λ t. x ∷ t) (without_last-bracket (y ∷ ys))

unbracketed-bracket : (xs : Text) → unbracketed (trim (91 ∷ xs ++ 93 ∷ [])) ≡ xs
unfolding unbracketed trim trim_start trim_end
unbracketed-bracket xs =
    rw (trim_end-bracket xs, is_empty-bracket xs)
      (rw (ends_bracket-bracket xs) (without_last-bracket xs))

-- Entries that are trimmed and not empty, whose braces close, and which hold no comma, semicolon or
-- line break outside of braces, are found again, in their order, when they stand in brackets with a
-- comma between each two.
pub split-joined :
    (es : List Text) → All IsEntry es → split_bird_prefix_entries (91 ∷ joined es ++ 93 ∷ []) ≡ es
unfolding split_bird_prefix_entries
split-joined es h =
    ap (split_from 0 0 []) (unbracketed-bracket (joined es)) ∙ split_from-joined 0 es h
