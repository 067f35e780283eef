-- ===== src/Prelude/Lists.antt =====
-- Lists measured by native numbers, filtered and searched by Boolean tests.
use Prim.Native.Nat.{ℕ, zero, suc, ◌+◌, ◌≤◌}
use mathlib.Core.Path.{◌≡◌, refl, ap}
use mathlib.Core.Bool.{Bool, true, false, ◌&&◌, ◌||◌}
use mathlib.Core.Option.{Option, none, some}
use mathlib.Core.List.{List, [], ◌∷◌, ◌++◌}
use native.Mathlib.Omega.{arith}
use mathlib.Core.Logic.{inl, inr}
use birdbox.Prelude.Tests.{if◌then◌else◌, Bool-cases}

module _ {ℓ} {A : Type ℓ} where
  abbrev pub length : List A → ℕ
  length [] = 0
  length (x ∷ xs) = suc (length xs)

  abbrev pub filter : (A → Bool) → List A → List A
  filter p [] = []
  filter p (x ∷ xs) = if p x then x ∷ filter p xs else filter p xs

  abbrev pub all : (A → Bool) → List A → Bool
  all p [] = true
  all p (x ∷ xs) = p x && all p xs

  abbrev pub any : (A → Bool) → List A → Bool
  any p [] = false
  any p (x ∷ xs) = p x || any p xs

  abbrev pub find : (A → Bool) → List A → Option A
  find p [] = none
  find p (x ∷ xs) = if p x then some x else find p xs

  abbrev pub take : ℕ → List A → List A
  take zero xs = []
  take (suc n) [] = []
  take (suc n) (x ∷ xs) = x ∷ take n xs

  abbrev pub is_empty : List A → Bool
  is_empty [] = true
  is_empty (x ∷ xs) = false

  -- `xs.filter(p).length`
  abbrev pub count : (A → Bool) → List A → ℕ
  count p [] = 0
  count p (x ∷ xs) = if p x then suc (count p xs) else count p xs

  pub length-append : (xs ys : List A) → length (xs ++ ys) ≡ length xs + length ys
  length-append [] ys = omega arith
  length-append (x ∷ xs) ys = omega (arith, length-append xs ys)

  pub append_assoc : (xs ys zs : List A) → (xs ++ ys) ++ zs ≡ xs ++ (ys ++ zs)
  append_assoc [] ys zs = refl
  append_assoc (x ∷ xs) ys zs = ap (λ t. x ∷ t) (append_assoc xs ys zs)

  pub append_nil : (xs : List A) → xs ++ [] ≡ xs
  append_nil [] = refl
  append_nil (x ∷ xs) = ap (λ t. x ∷ t) (append_nil xs)

  pub count-append : (p : A → Bool) (xs ys : List A) → count p (xs ++ ys) ≡ count p xs + count p ys
  count-append p [] ys = omega arith
  count-append p (x ∷ xs) ys = ground (arith, count-append p xs ys)

  pub count-filter_and :
      (p q : A → Bool) (xs : List A) → count p (filter q xs) ≡ count (λ x. p x && q x) xs
  count-filter_and p q [] = refl
  count-filter_and p q (x ∷ xs) = ground (arith, count-filter_and p q xs)

  pub count-filter-le : (p q : A → Bool) (xs : List A) → count p (filter q xs) ≤ count p xs
  count-filter-le p q [] = omega arith
  count-filter-le p q (x ∷ xs) = ground (arith, count-filter-le p q xs)

  pub length-take-le : (n : ℕ) (xs : List A) → length (take n xs) ≤ n
  length-take-le zero xs = omega arith
  length-take-le (suc n) [] = omega arith
  length-take-le (suc n) (x ∷ xs) = omega (arith, length-take-le n xs)

-- A predicate that holds of each member.
module _ {ℓ κ} {A : Type ℓ} (P : A → Type κ) where
  abbrev pub All : List A → Type κ
  All [] = Unit
  All (x ∷ xs) = P x × All xs

  pub All-append : (xs ys : List A) → All xs → All ys → All (xs ++ ys)
  All-append [] ys h k = k
  All-append (x ∷ xs) ys (p, h) k = (p, All-append xs ys h k)

  pub All-filter : (q : A → Bool) (xs : List A) → All xs → All (filter q xs)
  All-filter q [] h = tt
  All-filter q (x ∷ xs) (p, h) = elim (Bool-cases (q x)) [
    | inl e ↦ rw e (p, All-filter q xs h)
    | inr e ↦ rw e (All-filter q xs h)
  ]

pub All-map {ℓ κ ι} :
    {A : Type ℓ} (P : A → Type κ) (Q : A → Type ι)
    → ((x : A) → P x → Q x)
    → (xs : List A) → All P xs
    → All Q xs
All-map P Q f [] h = tt
All-map P Q f (x ∷ xs) (p, h) = (f x p, All-map P Q f xs h)

pub All-zip {ℓ κ ι} :
    {A : Type ℓ} (P : A → Type κ) (Q : A → Type ι) (xs : List A)
    → All P xs
    → All Q xs
    → All (λ x. P x × Q x) xs
All-zip P Q [] h k = tt
All-zip P Q (x ∷ xs) (p, h) (q, k) = ((p, q), All-zip P Q xs h k)

-- Membership that can be taken apart.
pub data In {ℓ} {A : Type ℓ} (x : A) : List A → Type ℓ where
  first : {y : A} {ys : List A} → x ≡ y → In x (y ∷ ys)
  later : {y : A} {ys : List A} → In x ys → In x (y ∷ ys)

module _ {ℓ} {A : Type ℓ} where
  pub All-In {κ} : (P : A → Type κ) (xs : List A) {x : A} → All P xs → In x xs → P x
  All-In P [] h i = elim i [ ]
  All-In P (y ∷ ys) (p, h) (first e) = rw e p
  All-In P (y ∷ ys) (p, h) (later i) = All-In P ys h i

  pub All-tabulate {κ} : (P : A → Type κ) (xs : List A) → ((x : A) → In x xs → P x) → All P xs
  All-tabulate P [] f = tt
  All-tabulate P (x ∷ xs) f = (f x (first refl), All-tabulate P xs (λ y i. f y (later i)))

  pub In-filter : (p : A → Bool) (xs : List A) {x : A} → In x (filter p xs) → In x xs
  In-filter p [] i = elim i [ ]
  In-filter p (y ∷ ys) {x} i = elim (Bool-cases (p y)) [
    | inl e ↦ kept (In-filter p ys) (rw e at i)
    | inr e ↦ later (In-filter p ys (rw e at i))
  ]
    where
      kept : (In x (filter p ys) → In x ys) → In x (y ∷ filter p ys) → In x (y ∷ ys)
      kept f (first e) = first e
      kept f (later j) = later (f j)

  pub In-find : (p : A → Bool) (xs : List A) {x : A} → find p xs ≡ some x → In x xs
  In-find p [] e = absurd (cc e)
  In-find p (y ∷ ys) e = elim (Bool-cases (p y)) [
    | inl h ↦ let e' = rw h at e in first (cc e')
    | inr h ↦ later (In-find p ys (rw h at e))
  ]

  pub All-append_iff {κ} :
      (P : A → Type κ) (xs ys : List A) → All P (xs ++ ys) → All P xs × All P ys
  All-append_iff P [] ys h = (tt, h)
  All-append_iff P (x ∷ xs) ys (p, h) = let (a, b) = All-append_iff P xs ys h in ((p, a), b)
