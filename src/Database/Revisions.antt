-- ===== src/Database/Revisions.antt =====
-- What the revisions of src/database.ts are good for: a write that names the revision it has read
-- overwrites nothing that it has not seen.
use birdbox.Prelude.{
  ◌≡◌, ◌⊎◌, refl, sym, ap, ◌∙◌, ℕ, suc, ◌<◌, String, true, Option, none, some, List, [], ◌∷◌,
  str_eq, eq_iff, ◌==◌, arith, Bool-cases, Option-cases, inl, inr,
}
use birdbox.Prelude.Dict
use birdbox.Database.State.{done, StateRecord, MutationOutcome, throws, returns}
use birdbox.Database.Memory.{
  Memory, started, create_state, stored, settle, mutate_state, replace_found, replace_state,
}

module _ {V : Type 0} where
  -- A record is later than another one, or is the same.
  abbrev pub IsSince : StateRecord V → StateRecord V → Type 0
  IsSince s t = (s.revision < t.revision) ⊎ (t ≡ s)

  abbrev pub Kept : String → StateRecord V → Memory V → Type 0
  Kept key s db = (t : StateRecord V) × ((Dict.get key db.states ≡ some t) × IsSince s t)

  IsSince-trans : (s t u : StateRecord V) → IsSince s t → IsSince t u → IsSince s u
  IsSince-trans s t u (inl a) (inl b) = inl (omega (arith, a, b))
  IsSince-trans s t u (inl a) (inr e) = inl (rw e a)
  IsSince-trans s t u (inr e) (inl b) = inl (rw e at b)
  IsSince-trans s t u (inr e) (inr e') = inr (cc (e, e'))

  Kept-same :
      (key : String) (s : StateRecord V) (db : Memory V)
      → Dict.get key db.states ≡ some s
      → Kept key s db
  Kept-same key s db is = (s, (is, inr refl))

  started-same :
      (key other : String) (initial : V) (s : StateRecord V) (db : Memory V)
      → Dict.get key db.states ≡ some s
      → Dict.get key (started other initial db).states ≡ some s
  unfolding started
  started-same key other initial s db is = elim (Option-cases (Dict.get other db.states)) [
    | inr (t, e) ↦ rw (e, started) is
    | inl e ↦
        rw (e, started, Dict.get-set other key (record { revision = 1; value = initial }) db.states)
          (elim (Bool-cases (str_eq other key)) [
            | inl same ↦ absurd (let e' = rw ((eq_iff other key).0 same, is) at e in cc e')
            | inr differs ↦ rw differs is
          ])
  ]

  abbrev revision_of : Option (StateRecord V) → ℕ
  revision_of none = 0
  revision_of (some t) = t.revision

  stored-Kept :
      (key other : String) (s now next : StateRecord V) (db : Memory V)
      → Dict.get key db.states ≡ some s
      → Dict.get other db.states ≡ some now
      → now.revision < next.revision
      → Kept key s (stored other next db)
  unfolding stored
  stored-Kept key other s now next db is here newer = elim (Bool-cases (str_eq other key)) [
    | inl same ↦ (
      next,
      (
        rw (Dict.get-set other key next db.states, same) refl,
        inl (newer_than ((eq_iff other key).0 same)),
      ),
    )
    | inr differs ↦ (s, (rw (Dict.get-set other key next db.states, differs) is, inr refl))
  ]
    where
      newer_than : other ≡ key → s.revision < next.revision
      newer_than e =
          let same_record =
            ap revision_of (sym is ∙ (ap (λ k. Dict.get k db.states) (sym e) ∙ here)) in
          omega (arith, same_record, newer)

  settle-Kept :
      {R : Type 0} (key other : String) (s now : StateRecord V) (o : MutationOutcome V R)
      (db : Memory V)
      → Dict.get key db.states ≡ some s
      → Dict.get other db.states ≡ some now
      → Kept key s (settle other now o db).0
  unfolding settle
  settle-Kept key other s now (throws p) db is here = Kept-same key s db is
  settle-Kept key other s now (returns none r) db is here = Kept-same key s db is
  settle-Kept key other s now (returns (some v) r) db is here =
      stored-Kept key other s now (record { revision = suc now.revision; value = v }) db is here
        (omega arith)

  mutate_state-Kept :
      {R : Type 0} (key other : String) (s : StateRecord V) (initial : V)
      (f : V → MutationOutcome V R) (db : Memory V)
      → Dict.get key db.states ≡ some s
      → Kept key s (mutate_state other initial f db).0
  unfolding mutate_state
  mutate_state-Kept key other s initial f db is =
      let is' = started-same key other initial s db is in
      elim (Option-cases (Dict.get other (started other initial db).states)) [
        | inl e ↦ rw (e, mutate_state) (Kept-same key s (started other initial db) is')
        | inr (now, e) ↦
            rw (e, mutate_state)
              (settle-Kept key other s now (f now.value) (started other initial db) is' e)
      ]

  replace_found-Kept :
      (found : Option (StateRecord V)) (key other : String) (s : StateRecord V) (n : ℕ) (v : V)
      (db : Memory V)
      → Dict.get key db.states ≡ some s
      → Dict.get other db.states ≡ found
      → Kept key s (replace_found found other n v db).0
  unfolding replace_found
  replace_found-Kept none key other s n v db is here = Kept-same key s db is
  replace_found-Kept (some now) key other s n v db is here = elim (Bool-cases (now.revision == n)) [
    | inl e ↦ rw e (
        stored-Kept key other s now (record { revision = suc now.revision; value = v }) db is here
          (omega arith))
    | inr e ↦ rw e (Kept-same key s db is)
  ]

-- A call that touches the documents.
pub data Write (V : Type 0) : Type 0 where
  creates : String → V → Write V
  mutates : String → V → (V → MutationOutcome V Unit) → Write V
  replaces : String → ℕ → V → Write V

module _ {V : Type 0} where
  unfoldable pub write : Write V → Memory V → Memory V
  write (creates key v) db = (create_state key v db).0
  write (mutates key v f) db = (mutate_state key v f db).0
  write (replaces key n v) db = (replace_state key n v db).0

  unfoldable pub write_all : List (Write V) → Memory V → Memory V
  write_all [] db = db
  write_all (x ∷ xs) db = write_all xs (write x db)

  write-Kept :
      (x : Write V) (key : String) (s : StateRecord V) (db : Memory V)
      → Dict.get key db.states ≡ some s
      → Kept key s (write x db)
  unfolding write create_state replace_state
  write-Kept (creates other v) key s db is =
      Kept-same key s (started other v db) (started-same key other v s db is)
  write-Kept (mutates other v f) key s db is = mutate_state-Kept key other s v f db is
  write-Kept (replaces other n v) key s db is =
      replace_found-Kept (Dict.get other db.states) key other s n v db is refl

  -- A document never vanishes, and with each change its revision grows.
  write_all-Kept :
      (xs : List (Write V)) (key : String) (s : StateRecord V) (db : Memory V)
      → Dict.get key db.states ≡ some s
      → Kept key s (write_all xs db)
  unfolding write_all
  write_all-Kept [] key s db is = Kept-same key s db is
  write_all-Kept (x ∷ xs) key s db is =
      let (t, (there, newer)) = write-Kept x key s db is in
      let (u, (now, newest)) = write_all-Kept xs key t (write x db) there in
      (u, (now, IsSince-trans s t u newer newest))

  replace_found-some :
      (found : Option (StateRecord V)) (key : String) (n : ℕ) (v : V) (db : Memory V)
      (answer : StateRecord V)
      → (replace_found found key n v db).1 ≡ done answer
      → (now : StateRecord V) × ((found ≡ some now)
          × ((now.revision ≡ n)
              × (Dict.get key (replace_found found key n v db).0.states
                  ≡ some (record { revision = suc n; value = v }))))
  unfolding replace_found stored
  replace_found-some none key n v db answer e = absurd (cc e)
  replace_found-some (some now) key n v db answer e = elim (Bool-cases (now.revision == n)) [
    | inl same ↦ (
      now,
      (
        refl,
        (
          equal now.revision n same,
          rw
              (
                same,
                Dict.get-set key key (record { revision = suc now.revision; value = v }) db.states,
                (eq_iff key key).1 refl,
              )
              (ap (λ r. some (record { revision = suc r; value = v })) (equal now.revision n same)),
        ),
      ),
    )
    | inr other ↦ absurd (let e' = rw other at e in cc e')
  ]
    where
      equal : (a b : ℕ) → (a == b) ≡ true → a ≡ b
      equal a b h = ground arith

  -- A write that names the revision of a document that was read, and that succeeds after other calls
  -- have come between, finds the document as it was read, and leaves the new one under the next
  -- revision: no change that the reader has not seen is lost.
  pub replace_state-latest :
      (xs : List (Write V)) (key : String) (s : StateRecord V) (v : V) (db : Memory V)
      (answer : StateRecord V)
      → Dict.get key db.states ≡ some s
      → (replace_state key s.revision v (write_all xs db)).1 ≡ done answer
      → (Dict.get key (write_all xs db).states ≡ some s)
        × (Dict.get key (replace_state key s.revision v (write_all xs db)).0.states
            ≡ some (record { revision = suc s.revision; value = v }))
  unfolding replace_state
  replace_state-latest xs key s v db answer is e =
      let (now, (found, (same, after))) =
        replace_found-some (Dict.get key (write_all xs db).states) key s.revision v
          (write_all xs db) answer e in
      let (t, (there, since)) = write_all-Kept xs key s db is in
      (settled now t found same there since, after)
    where
      settled :
          (now t : StateRecord V)
          → Dict.get key (write_all xs db).states ≡ some now
          → now.revision ≡ s.revision
          → Dict.get key (write_all xs db).states ≡ some t
          → IsSince s t
          → Dict.get key (write_all xs db).states ≡ some s
      settled now t found same there (inr e) = cc (there, e)
      settled now t found same there (inl newer) =
          let equal = ap revision_of (sym found ∙ there) in
          absurd (omega (arith, equal, newer, same))
