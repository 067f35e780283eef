-- ===== src/Prelude/Tails.antt =====
-- The ends of lists, and the logs that keep no more than the last entries.
use Prim.Native.Nat.{ℕ, zero, suc, ◌+◌, ◌-◌, ◌≤◌}
use mathlib.Core.Path.{◌≡◌, refl, sym, ap, ◌∙◌}
use mathlib.Core.List.{List, [], ◌∷◌, ◌++◌}
use native.Mathlib.Omega.{arith}
use birdbox.Prelude.Lists.{length, length-append}

abbrev pub drop {ℓ} : {A : Type ℓ} → ℕ → List A → List A
drop zero xs = xs
drop (suc n) [] = []
drop (suc n) (x ∷ xs) = drop n xs

-- The last `n` members of a list.
abbrev pub last {ℓ} : {A : Type ℓ} → ℕ → List A → List A
last n xs = drop (length xs - n) xs

module _ {ℓ} {A : Type ℓ} where
  pub drop-append : (n : ℕ) (xs ys : List A) → n ≤ length xs → drop n (xs ++ ys) ≡ drop n xs ++ ys
  drop-append zero xs ys h = refl
  drop-append (suc n) [] ys h = absurd (omega (arith, h))
  drop-append (suc n) (x ∷ xs) ys h = drop-append n xs ys (omega (arith, h))

  pub drop-none : (n : ℕ) → drop {A = A} n [] ≡ []
  drop-none zero = refl
  drop-none (suc n) = refl

  pub drop-drop : (n m : ℕ) (xs : List A) → drop n (drop m xs) ≡ drop (n + m) xs
  drop-drop n zero xs = ap (λ k. drop k xs) (omega arith)
  drop-drop n (suc m) [] = drop-none n ∙ sym (drop-none (n + suc m))
  drop-drop n (suc m) (x ∷ xs) = drop-drop n m xs ∙ ap (λ k. drop k (x ∷ xs)) (shift n m)
    where
      shift : (n m : ℕ) → suc (n + m) ≡ n + suc m
      shift n m = omega arith

  pub length-drop : (n : ℕ) (xs : List A) → length (drop n xs) ≡ length xs - n
  length-drop zero xs = omega arith
  length-drop (suc n) [] = omega arith
  length-drop (suc n) (x ∷ xs) = omega (arith, length-drop n xs)

  -- What has been cut off is not missed.
  pub last-append : (n : ℕ) (xs ys : List A) → last n (last n xs ++ ys) ≡ last n (xs ++ ys)
  last-append n xs ys =
      ap (drop (length (last n xs ++ ys) - n)) (sym (drop-append (length xs - n) xs ys within))
      ∙ (drop-drop (length (last n xs ++ ys) - n) (length xs - n) (xs ++ ys)
          ∙ ap (λ k. drop k (xs ++ ys)) joined)
    where
      within : length xs - n ≤ length xs
      within = omega arith

      joined : length (last n xs ++ ys) - n + (length xs - n) ≡ length (xs ++ ys) - n
      joined =
          omega (
            arith,
            length-append (last n xs) ys,
            length-append xs ys,
            length-drop (length xs - n) xs,
          )
