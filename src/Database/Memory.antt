-- ===== src/Database/Memory.antt =====
-- `MemoryDatabase` of src/database.ts. The calls for one key are made one after another, by the queue
-- of the key; each is a single step here.
use birdbox.Prelude.{
  ℕ, suc, ◌-◌, String, Bool, not, Option, none, some, List, [], ◌∷◌, ◌++◌, str_eq, ◌==◌, ltb,
  if◌then◌else◌, any, filter, length, drop, last,
}
use birdbox.Prelude.Dict
use birdbox.Database.State.{
  Answer, done, fails, StateRecord, AuditEvent, MutationOutcome, throws, returns, MutationResult,
  deployment_locked, state_conflict, not_initialised,
}

pub record Memory (V : Type 0) : Type 0 where
  pub states : Dict.Dict (StateRecord V)
  pub locks : List String
  pub audit_events : List AuditEvent
  pub next_audit_id : ℕ

unfoldable pub empty_memory : {V : Type 0} → Memory V
empty_memory = record { states = []; locks = []; audit_events = []; next_audit_id = 1 }

-- `Number(limit)`, where a text that is no number is `missing`.
pub data Limit : Type 0 where
  missing negative : Limit
  whole : ℕ → Limit

abbrev pub is_locked : String → List String → Bool
is_locked name locks = any (λ l. str_eq l name) locks

abbrev pub unlock : String → List String → List String
unlock name locks = filter (λ l. not (str_eq l name)) locks

abbrev pub numbered : AuditEvent → ℕ → AuditEvent
numbered event n = record event { id = some n }

abbrev pub reverse : List AuditEvent → List AuditEvent
reverse [] = []
reverse (e ∷ es) = reverse es ++ e ∷ []

abbrev pub bounded_limit : Limit → ℕ
bounded_limit missing = 100
bounded_limit negative = 1
bounded_limit (whole n) = if n == 0 then 100 else if ltb 1000 n then 1000 else n

module _ {V : Type 0} where
  unfoldable pub with_lock :
      {A : Type 0} → String → (Memory V → Memory V × Answer A) → Memory V → Memory V × Answer A
  with_lock name operation db =
      let (after, answer) = operation (record db { locks = name ∷ db.locks }) in
      if is_locked name db.locks
      then (db, fails deployment_locked)
      else (record after { locks = unlock name after.locks }, answer)

  unfoldable pub read_state : String → Memory V → Option (StateRecord V)
  read_state key db = Dict.get key db.states

  unfoldable pub started : String → V → Memory V → Memory V
  started key initial db = elim (Dict.get key db.states) [
    | some s ↦ db
    | none ↦ record db {
      states = Dict.set key (record { revision = 1; value = initial }) db.states;
    }
  ]

  unfoldable pub create_state : String → V → Memory V → Memory V × Option (StateRecord V)
  create_state key initial db = (started key initial db, read_state key (started key initial db))

  unfoldable pub stored : String → StateRecord V → Memory V → Memory V
  stored key s db = record db { states = Dict.set key s db.states }

  -- What the mutator's answer does to the record that it was given.
  unfoldable pub settle :
      {R : Type 0}
      → String
      → StateRecord V
      → MutationOutcome V R
      → Memory V
      → Memory V × Answer (MutationResult V R)
  settle key s (throws p) db = (db, fails p)
  settle key s (returns none r) db =
      (db, done (record { value = s.value; result = r; revision = s.revision }))
  settle key s (returns (some v) r) db = (
    stored key (record { revision = suc s.revision; value = v }) db,
    done (record { value = v; result = r; revision = suc s.revision }),
  )

  unfoldable pub mutate_state :
      {R : Type 0}
      → String
      → V
      → (V → MutationOutcome V R)
      → Memory V
      → Memory V × Answer (MutationResult V R)
  mutate_state key initial mutator db =
      let begun = started key initial db in
      elim (Dict.get key begun.states) [
        | none ↦ (begun, fails (not_initialised key))
        | some s ↦ settle key s (mutator s.value) begun
      ]

  unfoldable pub replace_found :
      Option (StateRecord V) → String → ℕ → V → Memory V → Memory V × Answer (StateRecord V)
  replace_found none key expected_revision v db = (db, fails state_conflict)
  replace_found (some s) key expected_revision v db =
      let next : StateRecord V = record { revision = suc s.revision; value = v } in
      if s.revision == expected_revision
      then (stored key next db, done next)
      else (db, fails state_conflict)

  unfoldable pub replace_state : String → ℕ → V → Memory V → Memory V × Answer (StateRecord V)
  replace_state key expected_revision v db =
      replace_found (Dict.get key db.states) key expected_revision v db

  unfoldable pub append_audit_event : AuditEvent → Memory V → Memory V
  append_audit_event event db =
      let events = db.audit_events ++ numbered event db.next_audit_id ∷ [] in
      record db {
        audit_events =
            if ltb 50000 (length events) then drop (length events - 50000) events else events;
        next_audit_id = suc db.next_audit_id;
      }

  unfoldable pub list_audit_events : Limit → Memory V → List AuditEvent
  list_audit_events limit db = reverse (last (bounded_limit limit) db.audit_events)
