-- ===== src/Deployment/Store.antt =====
-- `replace` of src/store.ts, as src/deployment-service.ts calls it: the inventory is written if no
-- other write has come between, and after an exception the stored value is read to see whether the
-- write is there all the same.
use birdbox.Prelude.{
  Bool, true, false, Option, none, some, str_eq, or_else, ◌≡◌, ◌⊎◌, refl, Bool-cases, inl, inr,
}
use birdbox.Prelude.Text.{units}
use birdbox.Deployment.State.{Inventory, Failure}
use birdbox.Deployment.Script.{Commit, commits, conflicts, breaks, loses, fails}

abbrev pub state_conflict : Failure
state_conflict = record { code = some "STATE_CONFLICT"; message = units "数据已被其他操作更新，请刷新后重试" }

abbrev pub is_conflict : Failure → Bool
is_conflict f = str_eq (or_else f.code "") "STATE_CONFLICT"

abbrev pub unless : Bool → Failure → Option Failure
unless true f = none
unless false f = some f

-- What is stored then, and the exception.
unfoldable pub replace_with :
    {Rest : Type 0}
    → (Inventory Rest → Inventory Rest → Bool)
    → Commit Rest
    → Inventory Rest
    → Inventory Rest
    → Inventory Rest × Option Failure
replace_with same_stored commits found normalized = (normalized, none)
replace_with same_stored (conflicts other) found normalized =
    (other, unless (same_stored other normalized) state_conflict)
replace_with same_stored (breaks f) found normalized =
    (found, unless (same_stored found normalized) f)
replace_with same_stored (loses f) found normalized = (normalized, some f)
replace_with same_stored (fails f) found normalized = (found, some f)

-- The stored inventory is the one that was to be written, or the two are the same for the store.
abbrev pub IsStored :
    {Rest : Type 0}
    → (Inventory Rest → Inventory Rest → Bool)
    → Inventory Rest
    → Inventory Rest
    → Type 0
IsStored same_stored stored wanted = (stored ≡ wanted) ⊎ (same_stored stored wanted ≡ true)

-- A write that returns is there.
pub replace_with-IsStored :
    {Rest : Type 0} (same_stored : Inventory Rest → Inventory Rest → Bool) (commit : Commit Rest)
    (found normalized : Inventory Rest)
    → (replace_with same_stored commit found normalized).1 ≡ none
    → IsStored same_stored (replace_with same_stored commit found normalized).0 normalized
unfolding replace_with
replace_with-IsStored same commits found normalized e = inl refl
replace_with-IsStored same (conflicts other) found normalized e =
    elim (Bool-cases (same other normalized)) [
      | inl is ↦ inr is
      | inr not_it ↦ absurd (let e' = rw not_it at e in cc e')
    ]
replace_with-IsStored same (breaks f) found normalized e =
    elim (Bool-cases (same found normalized)) [
      | inl is ↦ inr is
      | inr not_it ↦ absurd (let e' = rw not_it at e in cc e')
    ]
replace_with-IsStored same (loses f) found normalized e = absurd (cc e)
replace_with-IsStored same (fails f) found normalized e = absurd (cc e)
