-- ===== src/Prelude/Sorting.antt =====
-- `xs.sort((a, b) => key(a) - key(b))`: what has the same key stays in its order.
use Prim.Native.Nat.{ℕ, suc}
use mathlib.Core.Path.{◌≡◌, refl}
use mathlib.Core.List.{List, [], ◌∷◌}
use native.Mathlib.Omega.{arith}
use birdbox.Prelude.Lists.{length}
use birdbox.Prelude.Tests.{leb, if◌then◌else◌}

unfoldable pub insert_by {ℓ} : {A : Type ℓ} → (A → ℕ) → A → List A → List A
insert_by key x [] = x ∷ []
insert_by key x (y ∷ ys) = if leb (key x) (key y) then x ∷ y ∷ ys else y ∷ insert_by key x ys

unfoldable pub sort_by {ℓ} : {A : Type ℓ} → (A → ℕ) → List A → List A
sort_by key [] = []
sort_by key (x ∷ xs) = insert_by key x (sort_by key xs)

length-insert_by {ℓ} :
    {A : Type ℓ} (key : A → ℕ) (x : A) (xs : List A) → length (insert_by key x xs) ≡ suc (length xs)
unfolding insert_by
length-insert_by key x [] = refl
length-insert_by key x (y ∷ ys) = ground (arith, length-insert_by key x ys)

pub length-sort_by {ℓ} :
    {A : Type ℓ} (key : A → ℕ) (xs : List A) → length (sort_by key xs) ≡ length xs
unfolding sort_by
length-sort_by key [] = refl
length-sort_by key (x ∷ xs) =
    omega (arith, length-insert_by key x (sort_by key xs), length-sort_by key xs)
