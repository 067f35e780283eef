-- ===== src/Prelude/Dict.antt =====
-- A JavaScript `Map` with text keys: its entries in the order of insertion. Writing to a key that
-- is there keeps its place; a new key goes to the end.
use Prim.Native.Nat.{◌+◌, ◌≤◌}
use Prim.Native.String.{String}
use mathlib.Core.Path.{◌≡◌, refl}
use mathlib.Core.Bool.{Bool}
use mathlib.Core.Option.{Option, none, some}
use mathlib.Core.List.{List, [], ◌∷◌}
use native.Mathlib.Omega.{arith}
use text.Mathlib.Text.{◌==◌ as str_eq}
use text.Mathlib.TextEquality.{eq_iff}
use mathlib.Core.Logic.{◌≢◌, inl, inr}
use birdbox.Prelude.Tests.{if◌then◌else◌, Bool-cases}
use birdbox.Prelude.Lists.{count, All}

abbrev pub Dict {ℓ} : Type ℓ → Type ℓ
Dict V = List (String × V)

module _ {ℓ} {V : Type ℓ} where
  unfoldable pub get : String → Dict V → Option V
  get k [] = none
  get k ((j, v) ∷ m) = if str_eq j k then some v else get k m

  unfoldable pub set : String → V → Dict V → Dict V
  set k v [] = (k, v) ∷ []
  set k v ((j, w) ∷ m) = if str_eq j k then (j, v) ∷ m else (j, w) ∷ set k v m

  unfoldable pub delete : String → Dict V → Dict V
  delete k [] = []
  delete k ((j, w) ∷ m) = if str_eq j k then delete k m else (j, w) ∷ delete k m

  unfoldable pub values : Dict V → List V
  values [] = []
  values ((j, w) ∷ m) = w ∷ values m

  unfoldable pub keys : Dict V → List String
  keys [] = []
  keys ((j, w) ∷ m) = j ∷ keys m

  pub get-set :
      (k j : String) (v : V) (m : Dict V)
      → get j (set k v m) ≡ (if str_eq k j then some v else get j m)
  unfolding get set
  get-set k j v [] = refl
  get-set k j v ((i, w) ∷ m) = ground (arith, eq_iff k j, eq_iff i k, eq_iff i j, get-set k j v m)

  pub get-delete :
      (k j : String) (m : Dict V) → get j (delete k m) ≡ (if str_eq k j then none else get j m)
  unfolding get delete
  get-delete k j [] = ground arith
  get-delete k j ((i, w) ∷ m) = ground (arith, eq_iff k j, eq_iff i k, eq_iff i j, get-delete k j m)

  pub get-delete_self : (k : String) (m : Dict V) → get k (delete k m) ≡ none
  get-delete_self k m = rw (get-delete k k m, (eq_iff k k).1 refl) refl

  pub get-none : (k : String) (m : Dict V) → get k m ≡ none → All (λ (e : String × V). e.0 ≢ k) m
  unfolding get
  get-none k [] h = tt
  get-none k ((j, w) ∷ m) h = elim (Bool-cases (str_eq j k)) [
    | inl same ↦ absurd (cc (rw (same, get) at h))
    | inr differs ↦ (λ e. cc ((eq_iff j k).1 e), get-none k m (rw (differs, get) at h))
  ]

  -- A write adds at most its own value to a count.
  pub count-set :
      (p : V → Bool) (k : String) (v : V) (m : Dict V)
      → count p (values (set k v m)) ≤ count p (values m) + (if p v then 1 else 0)
  unfolding set values
  count-set p k v [] = ground arith
  count-set p k v ((j, w) ∷ m) = ground (arith, count-set p k v m)

  pub count-delete :
      (p : V → Bool) (k : String) (m : Dict V) → count p (values (delete k m)) ≤ count p (values m)
  unfolding delete values
  count-delete p k [] = ground arith
  count-delete p k ((j, w) ∷ m) = ground (arith, count-delete p k m)

-- Of every entry.
module _ {ℓ κ} {V : Type ℓ} (P : String × V → Type κ) where
  pub set-All : (k : String) (v : V) (m : Dict V) → P (k, v) → All P m → All P (set k v m)
  unfolding set
  set-All k v [] p h = (p, tt)
  set-All k v ((j, w) ∷ m) p (q, h) = elim (Bool-cases (str_eq j k)) [
    | inl same ↦ rw same (rw (← (eq_iff j k).0 same) at p, h)
    | inr differs ↦ rw differs (q, set-All k v m p h)
  ]

  -- What remains has another key, too.
  pub delete-All : (k : String) (m : Dict V) → All P m → All (λ e. P e × (e.0 ≢ k)) (delete k m)
  unfolding delete
  delete-All k [] h = tt
  delete-All k ((j, w) ∷ m) (q, h) = elim (Bool-cases (str_eq j k)) [
    | inl same ↦ rw same (delete-All k m h)
    | inr differs ↦ rw differs ((q, λ e. cc ((eq_iff j k).1 e)), delete-All k m h)
  ]
