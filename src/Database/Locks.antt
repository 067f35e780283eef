-- ===== src/Database/Locks.antt =====
-- The lock of a deployment, in src/database.ts.
use birdbox.Prelude.{
  ◌≡◌, refl, ap, String, false, List, [], ◌∷◌, str_eq, eq_iff, Bool-cases, inl, inr,
}
use birdbox.Database.State.{Answer, fails, deployment_locked}
use birdbox.Database.Memory.{Memory, is_locked, unlock, with_lock}

unlock-absent :
    (name : String) (locks : List String) → is_locked name locks ≡ false → unlock name locks ≡ locks
unlock-absent name [] e = refl
unlock-absent name (l ∷ ls) e = elim (Bool-cases (str_eq l name)) [
  | inl same ↦ absurd (let e' = rw same at e in cc e')
  | inr other ↦ rw other (ap (λ t. l ∷ t) (unlock-absent name ls (rw other at e)))
]

module _ {V A : Type 0} where
  -- Under its own lock an operation is refused, whatever has happened since the lock was taken, as
  -- long as the lock is held; and an operation that leaves the locks alone leaves none behind.
  pub with_lock-excludes :
      (name : String) (before operation : Memory V → Memory V × Answer A) (db : Memory V)
      → ((d : Memory V) → (before d).0.locks ≡ d.locks)
      → is_locked name db.locks ≡ false
      → ((with_lock name (λ d. with_lock name operation (before d).0) db).1
          ≡ fails deployment_locked)
        × ((with_lock name before db).0.locks ≡ db.locks)
  unfolding with_lock
  with_lock-excludes name before operation db keeps free = (
    rw free
        (rw (keeps (record db { locks = name ∷ db.locks })) (rw ((eq_iff name name).1 refl) refl)),
    rw free (
        rw (keeps (record db { locks = name ∷ db.locks }))
          (rw ((eq_iff name name).1 refl) (unlock-absent name db.locks free))),
  )
