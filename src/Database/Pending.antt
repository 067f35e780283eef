-- ===== src/Database/Pending.antt =====
-- What the migrations of src/database.ts leave to be done.
use birdbox.Prelude.{
  ◌≡◌, refl, ap, ◌∙◌, ℕ, String, Bool, true, ◌||◌, Option, none, List, [], ◌∷◌, ◌++◌, map, ◌==◌,
  arith, Bool-cases, Option-cases, inl, inr, In, first, later, All, All-tabulate, All-append,
}
use birdbox.Database.State.{Problem}
use birdbox.Database.Migrations.{
  Migration, MigrationRow, Step, runs, verifies, records, check_rows, is_applied, migration_steps,
  pending_steps, verify_steps, perform, run_migrations, recorded,
}

perform-none :
    (answer : Step → Option Problem) (xs : List Step)
    → (perform answer xs).1 ≡ none
    → (perform answer xs).0 ≡ xs
unfolding perform
perform-none answer [] e = refl
perform-none answer (x ∷ xs) e = elim (Option-cases (answer x)) [
  | inr (p, is) ↦ absurd (let e' = rw (is, perform) at e in cc e')
  | inl is ↦ rw (is, perform) (ap (λ t. x ∷ t) (perform-none answer xs (rw (is, perform) at e)))
]

recorded-append : (xs ys : List Step) → recorded (xs ++ ys) ≡ recorded xs ++ recorded ys
unfolding recorded
recorded-append [] ys = refl
recorded-append (runs s ∷ xs) ys = recorded-append xs ys
recorded-append (verifies t ∷ xs) ys = recorded-append xs ys
recorded-append (records version name ∷ xs) ys =
    ap (λ t. record { version = version; name = name } ∷ t) (recorded-append xs ys)

is_applied-append :
    (version : ℕ) (xs ys : List MigrationRow)
    → is_applied version (xs ++ ys) ≡ (is_applied version xs || is_applied version ys)
unfolding is_applied
is_applied-append version [] ys = refl
is_applied-append version (x ∷ xs) ys = elim (Bool-cases (x.version == version)) [
  | inl e ↦ rw e refl
  | inr e ↦ rw e (is_applied-append version xs ys)
]

recorded-runs : (xs : List String) → recorded (map runs xs) ≡ []
unfolding recorded
recorded-runs [] = refl
recorded-runs (x ∷ xs) = recorded-runs xs

recorded-verifies : (xs : List String) → recorded (map verifies xs) ≡ []
unfolding recorded
recorded-verifies [] = refl
recorded-verifies (x ∷ xs) = recorded-verifies xs

recorded-migration_steps :
    (m : Migration)
    → recorded (migration_steps m) ≡ record { version = m.version; name = m.name } ∷ []
unfolding migration_steps recorded
recorded-migration_steps m =
    recorded-append (map runs m.statements ++ map verifies m.tables) (records m.version m.name ∷ [])
    ∙ rw
        (
          recorded-append (map runs m.statements) (map verifies m.tables),
          recorded-runs m.statements,
          recorded-verifies m.tables,
        )
        refl

equal_self : (n : ℕ) → (n == n) ≡ true
equal_self n = ground arith

or-left : (a b : Bool) → a ≡ true → (a || b) ≡ true
or-left a b h = ground arith

or-right : (a b : Bool) → b ≡ true → (a || b) ≡ true
or-right a b h = ground arith

or-middle : (a b c : Bool) → (a || c) ≡ true → (a || (b || c)) ≡ true
or-middle a b c h = ground arith

is_applied-own :
    (v : ℕ) (name : String) → is_applied v (record { version = v; name = name } ∷ []) ≡ true
unfolding is_applied
is_applied-own v name = rw (equal_self v) refl

-- Every migration is among the rows, or among those that the pending steps record.
pending_steps-records :
    (rows : List MigrationRow) (ms : List Migration) (m : Migration)
    → In m ms
    → (is_applied m.version rows || is_applied m.version (recorded (pending_steps rows ms))) ≡ true
unfolding pending_steps
pending_steps-records rows [] m i = elim i [ ]
pending_steps-records rows (k ∷ ms) m (first e) = elim (Bool-cases (is_applied k.version rows)) [
  | inl old ↦ rw (e, old) refl
  | inr new ↦
      rw
        (
          e,
          new,
          recorded-append (migration_steps k) (pending_steps rows ms),
          recorded-migration_steps k,
          is_applied-append k.version (record { version = k.version; name = k.name } ∷ [])
              (recorded (pending_steps rows ms)),
        )
        (itself k.version _)
]
  where
    itself :
        (v : ℕ) (b : Bool) → (is_applied v (record { version = v; name = k.name } ∷ []) || b) ≡ true
    itself v b = or-left _ b (is_applied-own v k.name)
pending_steps-records rows (k ∷ ms) m (later i) = elim (Bool-cases (is_applied k.version rows)) [
  | inl old ↦ rw old (pending_steps-records rows ms m i)
  | inr new ↦
      rw
        (
          new,
          recorded-append (migration_steps k) (pending_steps rows ms),
          is_applied-append m.version (recorded (migration_steps k))
              (recorded (pending_steps rows ms)),
        )
        (or-middle (is_applied m.version rows) _ _ (pending_steps-records rows ms m i))
]

pending_steps-none :
    (rows : List MigrationRow) (ms : List Migration)
    → All (λ m. is_applied m.version rows ≡ true) ms
    → pending_steps rows ms ≡ []
unfolding pending_steps
pending_steps-none rows [] h = refl
pending_steps-none rows (m ∷ ms) (e, h) = rw e (pending_steps-none rows ms h)

perform-run :
    (answer : Step → Option Problem) (ms : List Migration) (rows : List MigrationRow)
    → (run_migrations answer ms rows).1 ≡ none
    → (run_migrations answer ms rows).0 ≡ pending_steps rows ms ++ verify_steps ms
unfolding run_migrations
perform-run answer ms rows e = elim (Option-cases (check_rows ms rows)) [
  | inr (p, is) ↦ absurd (let e' = rw (is, run_migrations) at e in cc e')
  | inl is ↦
      rw (is, run_migrations)
        (perform-none answer (pending_steps rows ms ++ verify_steps ms)
          (rw (is, run_migrations) at e))
]

run_migrations-none :
    (answer : Step → Option Problem) (ms : List Migration) (rows : List MigrationRow)
    → (run_migrations answer ms rows).1 ≡ none
    → pending_steps (rows ++ recorded (run_migrations answer ms rows).0) ms ≡ []
run_migrations-none answer ms rows e =
    rw (perform-run answer ms rows e, recorded-append (pending_steps rows ms) (verify_steps ms))
      (pending_steps-none _ ms (All-tabulate _ ms each))
  where
    joined : (a b c : Bool) → (a || b) ≡ true → (a || (b || c)) ≡ true
    joined a b c h = ground arith

    each :
        (m : Migration)
        → In m ms
        → is_applied m.version
            (rows ++ (recorded (pending_steps rows ms) ++ recorded (verify_steps ms)))
          ≡ true
    each m i =
        rw
          (
            is_applied-append m.version rows
                (recorded (pending_steps rows ms) ++ recorded (verify_steps ms)),
            is_applied-append m.version (recorded (pending_steps rows ms))
                (recorded (verify_steps ms)),
          )
          (joined (is_applied m.version rows) _ _ (pending_steps-records rows ms m i))

-- The step is the check of a table.
abbrev pub IsCheck : Step → Type 0
IsCheck x = (table : String) × (x ≡ verifies table)

verifies-IsCheck : (tables : List String) → All IsCheck (map verifies tables)
verifies-IsCheck [] = tt
verifies-IsCheck (t ∷ tables) = ((t, refl), verifies-IsCheck tables)

verify_steps-IsCheck : (ms : List Migration) → All IsCheck (verify_steps ms)
unfolding verify_steps
verify_steps-IsCheck [] = tt
verify_steps-IsCheck (m ∷ ms) =
    All-append IsCheck (map verifies m.tables) (verify_steps ms) (verifies-IsCheck m.tables)
      (verify_steps-IsCheck ms)

perform-IsCheck :
    (answer : Step → Option Problem) (xs : List Step)
    → All IsCheck xs
    → All IsCheck (perform answer xs).0
unfolding perform
perform-IsCheck answer [] h = tt
perform-IsCheck answer (x ∷ xs) (p, h) = elim (Option-cases (answer x)) [
  | inr (problem, is) ↦ rw (is, perform) tt
  | inl is ↦ rw (is, perform) (p, perform-IsCheck answer xs h)
]

-- The runs that find none of the migrations pending send nothing but checks of tables.
run_migrations-IsCheck :
    (answer : Step → Option Problem) (ms : List Migration) (rows : List MigrationRow)
    → pending_steps rows ms ≡ []
    → All IsCheck (run_migrations answer ms rows).0
unfolding run_migrations
run_migrations-IsCheck answer ms rows e = elim (Option-cases (check_rows ms rows)) [
  | inr (p, is) ↦ rw (is, run_migrations) tt
  | inl is ↦
      rw (is, e, run_migrations)
        (perform-IsCheck answer (verify_steps ms) (verify_steps-IsCheck ms))
]

-- Once the migrations have run without an error, their table holds every one of them: the next start
-- finds none pending, and sends nothing but checks of tables, whatever is answered to it.
pub run_migrations-pending :
    (answer answer' : Step → Option Problem) (ms : List Migration) (rows : List MigrationRow)
    → (run_migrations answer ms rows).1 ≡ none
    → (pending_steps (rows ++ recorded (run_migrations answer ms rows).0) ms ≡ [])
      × All IsCheck
          (run_migrations answer' ms (rows ++ recorded (run_migrations answer ms rows).0)).0
run_migrations-pending answer answer' ms rows e =
    let done = run_migrations-none answer ms rows e in
    (done, run_migrations-IsCheck answer' ms _ done)
