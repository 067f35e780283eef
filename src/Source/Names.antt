-- ===== src/Source/Names.antt =====
-- Which identifiers packages/contracts/src/bird-source-identifiers.ts finds.
use birdbox.Prelude.{
  ℕ, ◌≡◌, refl, Bool, true, false, ◌&&◌, List, [], ◌∷◌, ◌++◌, arith, ◌==◌, all, All,
}
use birdbox.Prelude.Text.{Text}
use birdbox.Source.Identifiers.{is_name}

abbrev pub IsName : Text → Type 0
IsName name = is_name name ≡ true

all-append : (p : ℕ → Bool) (xs ys : Text) → all p (xs ++ ys) ≡ (all p xs && all p ys)
all-append p [] ys = refl
all-append p (x ∷ xs) ys = ground (arith, all-append p xs ys)

-- Names with a space behind each.
abbrev pub spaced : List Text → Text
spaced [] = []
spaced (name ∷ names) = name ++ 32 ∷ spaced names

-- A text without a line break.
abbrev pub IsLine : Text → Type 0
IsLine text = All (λ c. (c == 10) ≡ false) text
