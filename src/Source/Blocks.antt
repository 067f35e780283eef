-- ===== src/Source/Blocks.antt =====
-- src/bird-source.ts: the check that a piece of BIRD source is whole, as it goes through the text with
-- its quotes and the depth of its braces. `normalizeBirdBlockSource` trims the text before.
use birdbox.Prelude.{
  ℕ, zero, suc, ◌+◌, ◌*◌, ◌≡◌, refl, ap, ◌∙◌, Bool, false, ◌&&◌, ◌||◌, Option, none, some, [], ◌∷◌,
  ◌++◌, arith, ltb, ◌==◌, if◌then◌else◌, any, length, Option-cases, Bool-cases, inl, inr,
}
use birdbox.Prelude.Text.{Text}

pub data Place : Type 0 where
  in_code in_line comment_open in_comment comment_close : Place
  quoted quoted_escape : ℕ → Place

pub data Check : Type 0 where
  whole too_long null_unit open_comment closes_outer unfinished : Check

abbrev next_is : ℕ → Text → Bool
next_is c [] = false
next_is c (d ∷ text) = d == c

abbrev close_brace : ℕ → Option (Place × ℕ)
close_brace zero = none
close_brace (suc depth) = some (in_code, depth)

-- One unit, with the text behind it. `none` is a brace that would close the outer block.
unfoldable pub advance : Place → ℕ → ℕ → Text → Option (Place × ℕ)
advance in_code depth c text =
    if c == 34 || c == 39
    then some (quoted c, depth)
    else if c == 35
    then some (in_line, depth)
    else if c == 47 && next_is 42 text
    then some (comment_open, depth)
    else if c == 123
    then some (in_code, suc depth)
    else if c == 125
    then close_brace depth
    else some (in_code, depth)
advance (quoted q) depth c text =
    if c == 92
    then some (quoted_escape q, depth)
    else if c == q
    then some (in_code, depth)
    else some (quoted q, depth)
advance (quoted_escape q) depth c text = some (quoted q, depth)
advance in_line depth c text = if c == 10 then some (in_code, depth) else some (in_line, depth)
advance comment_open depth c text = some (in_comment, depth)
advance in_comment depth c text =
    if c == 42 && next_is 47 text then some (comment_close, depth) else some (in_comment, depth)
advance comment_close depth c text = some (in_code, depth)

-- The last test, and the one of a block comment that has no end.
unfoldable pub at_end : Place → ℕ → Check
at_end in_code depth = if depth == 0 then whole else unfinished
at_end in_line depth = if depth == 0 then whole else unfinished
at_end comment_open depth = open_comment
at_end in_comment depth = open_comment
at_end comment_close depth = open_comment
at_end (quoted q) depth = unfinished
at_end (quoted_escape q) depth = unfinished

unfoldable pub check_from : Place → ℕ → Text → Check
check_from place depth [] = at_end place depth
check_from place depth (c ∷ text) = elim (advance place depth c text) [
  | none ↦ closes_outer
  | some after ↦ check_from after.0 after.1 text
]

abbrev pub max_policy_source_length : ℕ
max_policy_source_length = 32 * 1024

-- The checks of a text that has been trimmed.
unfoldable pub check_block : Text → Check
check_block source =
    if ltb max_policy_source_length (length source)
    then too_long
    else if any (λ c. c == 0) source
    then null_unit
    else check_from in_code 0 source

-- What is known of a step also holds deeper down, and with more text behind.
abbrev Deeper : ℕ → Option (Place × ℕ) → Option (Place × ℕ) → Type 0
Deeper outer none after = Unit
Deeper outer (some (q, n)) after = after ≡ some (q, n + outer)

next_is-more :
    (c : ℕ) (text rest : Text) → (10 == c) ≡ false → next_is c (text ++ 10 ∷ rest) ≡ next_is c text
next_is-more c [] rest h = h
next_is-more c (d ∷ text) rest h = refl

brace-Deeper : (depth outer : ℕ) → Deeper outer (close_brace depth) (close_brace (depth + outer))
brace-Deeper zero outer = tt
brace-Deeper (suc depth) outer = ap close_brace (shift depth outer)
  where
    shift : (a b : ℕ) → suc a + b ≡ suc (a + b)
    shift a b = omega arith

advance-Deeper :
    (place : Place) (depth outer c : ℕ) (text rest : Text)
    → Deeper outer
        (advance place depth c text)
        (advance place (depth + outer) c (text ++ 10 ∷ rest))
unfolding advance
advance-Deeper in_code depth outer c text rest =
    rw (next_is-more 42 text rest refl) (ground (arith, brace-Deeper depth outer))
advance-Deeper (quoted q) depth outer c text rest = ground arith
advance-Deeper (quoted_escape q) depth outer c text rest = refl
advance-Deeper in_line depth outer c text rest = ground arith
advance-Deeper comment_open depth outer c text rest = refl
advance-Deeper in_comment depth outer c text rest =
    rw (next_is-more 47 text rest refl) (ground arith)
advance-Deeper comment_close depth outer c text rest = refl

code_break :
    (depth : ℕ) (rest : Text) → check_from in_code depth (10 ∷ rest) ≡ check_from in_code depth rest
unfolding check_from advance
code_break depth rest = refl

line_break :
    (depth : ℕ) (rest : Text) → check_from in_line depth (10 ∷ rest) ≡ check_from in_code depth rest
unfolding check_from advance
line_break depth rest = refl

no_depth :
    (depth outer : ℕ) → (if depth == 0 then whole else unfinished) ≡ whole → depth + outer ≡ outer
no_depth depth outer h = ground arith

check_from-line :
    (place : Place) (depth outer : ℕ) (source rest : Text)
    → check_from place depth source ≡ whole
    → check_from place (depth + outer) (source ++ 10 ∷ rest) ≡ check_from in_code outer rest
unfolding check_from at_end
check_from-line in_code depth outer [] rest h =
    code_break (depth + outer) rest ∙ ap (λ k. check_from in_code k rest) (no_depth depth outer h)
check_from-line in_line depth outer [] rest h =
    line_break (depth + outer) rest ∙ ap (λ k. check_from in_code k rest) (no_depth depth outer h)
check_from-line comment_open depth outer [] rest h = absurd (cc h)
check_from-line in_comment depth outer [] rest h = absurd (cc h)
check_from-line comment_close depth outer [] rest h = absurd (cc h)
check_from-line (quoted q) depth outer [] rest h = absurd (cc h)
check_from-line (quoted_escape q) depth outer [] rest h = absurd (cc h)
check_from-line place depth outer (c ∷ source) rest h =
    elim (Option-cases (advance place depth c source)) [
      | inl e ↦ absurd (let h' = rw (e, check_from) at h in cc h')
      | inr (after, e) ↦
          let deeper = rw e at (advance-Deeper place depth outer c source rest) in
          rw (deeper, check_from)
            (check_from-line after.0 after.1 outer source rest (rw (e, check_from) at h))
    ]

-- A source that is accepted, followed by a line break, leaves quotes, comments and the depth of the
-- braces as they were: what stands behind it is read as if the source were not there.
pub check_block-whole :
    (outer : ℕ) (source rest : Text)
    → check_block source ≡ whole
    → check_from in_code outer (source ++ 10 ∷ rest) ≡ check_from in_code outer rest
unfolding check_block
check_block-whole outer source rest h =
    elim (Bool-cases (ltb max_policy_source_length (length source))) [
      | inl e ↦ absurd (let h' = rw e at h in cc h')
      | inr e ↦ elim (Bool-cases (any (λ c. c == 0) source)) [
        | inl f ↦ absurd (let h' = rw (e, f) at h in cc h')
        | inr f ↦
            ap (λ k. check_from in_code k (source ++ 10 ∷ rest)) (none_outer outer)
            ∙ check_from-line in_code 0 outer source rest (rw (e, f) at h)
      ]
    ]
  where
    none_outer : (n : ℕ) → n ≡ 0 + n
    none_outer n = omega arith
