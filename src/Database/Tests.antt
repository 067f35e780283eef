-- ===== src/Database/Tests.antt =====
-- Runs of the model of src/database.ts.
use birdbox.Prelude.{
  ◌≡◌, refl, ℕ, zero, suc, ◌+◌, String, Option, none, some, List, [], ◌∷◌, ◌++◌, All, last,
  insert_by, sort_by,
}
use birdbox.Prelude.Dict
use birdbox.Prelude.Text.{Text, units, same_text}
use birdbox.Database.State.{
  Problem, Answer, done, fails, AuditEvent, admin, success, returns, throws, deployment_locked,
  state_conflict,
}
use birdbox.Database.Memory.{
  Memory, empty_memory, with_lock, replace_state, replace_found, stored, mutate_state, started,
  settle, list_audit_events, reverse, whole,
}
use birdbox.Database.Revisions.{Write, mutates, replaces, write, write_all, replace_state-latest}
use birdbox.Database.Locks.{with_lock-excludes}
use birdbox.Database.Audit.{append_all, numbered_from, list_audit_events-append_all}
use birdbox.Database.Migrations.{
  Step, schema_migrations, MigrationRow, run_migrations, pending_steps, recorded, perform,
  check_rows, check_row, is_applied, migration_steps, verify_steps,
}
use birdbox.Database.Pending.{run_migrations-pending, IsCheck}
use birdbox.Database.Transaction.{Fault, Attempt, commits, breaks, mutate_state_retried}
use birdbox.Database.Retries.{EndsFrom, mutate_state_retried-ends}
use birdbox.Database.Contract.{
  TableMetadata, squeeze, normalized_text, normalized_metadata_value, normalized_column_extra,
  without_word,
}
use birdbox.Database.Tables.{mysql_table_contracts, birdbox_schema_migrations}
use birdbox.Database.Validation.{
  validate_mysql_table_contract, check_contract, check_table, check_all_columns, check_columns,
  check_column, check_all_indexes, check_indexes, check_index, check_index_rows, group_indexes,
  is_value, first_failing,
}
use birdbox.Database.Layout.{IsLaidOut, validate-IsLaidOut}

abbrev two : Memory ℕ
two = record {
  states =
      ("a", record { revision = 4; value = 10 }) ∷ ("b", record { revision = 1; value = 20 }) ∷ [];
  locks = "other" ∷ [];
  audit_events = [];
  next_audit_id = 1;
}

-- Writes of other documents, and one that the mutator breaks off.
abbrev between : List (Write ℕ)
between =
    replaces "b" 1 21
    ∷ mutates "a" 0 (λ v. throws state_conflict)
    ∷ mutates "c" 5 (λ v. returns (some (v + 1)) none)
    ∷ replaces "a" 3 99
    ∷ []

replaced_a :
    (replace_state "a" 4 11 (write_all between two)).1 ≡ done (record { revision = 5; value = 11 })
unfolding replace_state replace_found stored write_all write mutate_state started settle Dict.get
    Dict.set
replaced_a = refl

replace_state-latest_example :
    (Dict.get "a" (write_all between two).states ≡ some (record { revision = 4; value = 10 }))
    × (Dict.get "a" (replace_state "a" 4 11 (write_all between two)).0.states
        ≡ some (record { revision = 5; value = 11 }))
unfolding Dict.get
replace_state-latest_example =
    replace_state-latest between "a" (record { revision = 4; value = 10 }) 11 two
      (record { revision = 5; value = 11 }) refl replaced_a

abbrev work : Memory ℕ → Memory ℕ × Answer ℕ
work db = (record db { next_audit_id = 9 }, done 3)

with_lock-excludes_example :
    ((with_lock "deploy" (λ d. with_lock "deploy" work (work d).0) two).1 ≡ fails deployment_locked)
    × ((with_lock "deploy" work two).0.locks ≡ "other" ∷ [])
with_lock-excludes_example = with_lock-excludes "deploy" work work two (λ d. refl) refl

abbrev event : String → AuditEvent
event id = record {
  id = none;
  occurred_at = "now";
  request_id = id;
  actor = admin;
  method = "POST";
  path = "/";
  status = 200;
  outcome = success;
  remote_address = none;
  user_agent = none;
  detail = none;
}

list_audit_events-append_all_example :
    list_audit_events
      (whole 2)
      (append_all (event "x" ∷ event "y" ∷ event "z" ∷ []) (empty_memory {V = ℕ}))
    ≡ reverse (last 2 (numbered_from 1 (event "x" ∷ event "y" ∷ event "z" ∷ [])))
list_audit_events-append_all_example =
    list_audit_events-append_all ℕ (whole 2) (event "x" ∷ event "y" ∷ event "z" ∷ [])

abbrev all_well : Step → Option Problem
all_well x = none

abbrev first_applied : List MigrationRow
first_applied = record { version = 1; name = "initial_state_store" } ∷ []

migrations_ran : (run_migrations all_well schema_migrations first_applied).1 ≡ none
unfolding run_migrations check_rows check_row pending_steps is_applied migration_steps verify_steps
    perform
migrations_ran = refl

abbrev rows_left : List MigrationRow
rows_left = first_applied ++ recorded (run_migrations all_well schema_migrations first_applied).0

run_migrations-pending_example :
    (pending_steps rows_left schema_migrations ≡ [])
    × All IsCheck (run_migrations all_well schema_migrations rows_left).0
run_migrations-pending_example =
    run_migrations-pending all_well all_well schema_migrations first_applied migrations_ran

abbrev deadlock : Fault
deadlock = record { code = some "ER_LOCK_DEADLOCK"; sql_state = none; message = [] }

abbrev third_time : ℕ → Attempt ℕ
third_time zero = breaks deadlock
third_time (suc zero) = breaks deadlock
third_time (suc (suc n)) = commits n

mutate_state_retried-ends_example :
    EndsFrom (λ n. 7) third_time 0 (mutate_state_retried (λ n. 7) third_time)
mutate_state_retried-ends_example = mutate_state_retried-ends (λ n. 7) third_time

abbrev unset : Option Text
unset = none

abbrev schema_metadata : TableMetadata
schema_metadata = record {
  tables =
      record { engine = some (units "InnoDB"); table_collation = some (units "utf8mb4_unicode_ci") }
      ∷ [];
  columns =
      record {
        column_name = "version";
        column_type = some (units "int unsigned");
        is_nullable = some (units "NO");
        column_default = unset;
        extra = some [];
        character_set_name = unset;
        collation_name = unset;
        ordinal_position = 1;
      }
      ∷ record {
        column_name = "applied_at";
        column_type = some (units "timestamp(3)");
        is_nullable = some (units "no");
        column_default = some (units "CURRENT_TIMESTAMP(3)");
        extra = some (units "DEFAULT_GENERATED");
        character_set_name = unset;
        collation_name = unset;
        ordinal_position = 3;
      }
      ∷ record {
        column_name = "name";
        column_type = some (units " varchar(128)");
        is_nullable = some (units "NO");
        column_default = unset;
        extra = some [];
        character_set_name = some (units "utf8mb4");
        collation_name = some (units "utf8mb4_unicode_ci");
        ordinal_position = 2;
      }
      ∷ [];
  indexes =
      record {
        index_name = "PRIMARY";
        non_unique = 0;
        seq_in_index = 1;
        column_name = "version";
        sub_part = none;
        index_type = some (units "BTREE");
      }
      ∷ [];
}

schema_accepted :
    validate_mysql_table_contract mysql_table_contracts "birdbox_schema_migrations" schema_metadata
    ≡ none
unfolding validate_mysql_table_contract check_contract check_table check_all_columns check_columns
    check_column check_all_indexes check_indexes check_index check_index_rows group_indexes is_value
    first_failing sort_by insert_by same_text units squeeze normalized_text
    normalized_metadata_value normalized_column_extra without_word Dict.get Dict.set
schema_accepted = refl

validate-IsLaidOut_example : IsLaidOut birdbox_schema_migrations schema_metadata
unfolding Dict.get
validate-IsLaidOut_example =
    validate-IsLaidOut mysql_table_contracts "birdbox_schema_migrations" birdbox_schema_migrations
      schema_metadata refl schema_accepted
