-- ===== src/Database/Migrations.antt =====
-- The migrations of the schema, `#runMigrations` of src/database.ts.
use birdbox.Prelude.{
  ℕ, String, Bool, Option, none, some, List, [], ◌∷◌, ◌++◌, map, str_eq, ◌==◌, ltb, if◌then◌else◌,
  any, find,
}
use birdbox.Prelude.Text.{Text, units}
use birdbox.Database.State.{Problem, database_error}

pub record Migration : Type 0 where
  pub version : ℕ
  pub name : String
  pub tables : List String
  pub statements : List String

abbrev pub current_schema_version : ℕ
current_schema_version = 2

abbrev pub schema_migrations : List Migration
schema_migrations =
    record {
      version = 1;
      name = "initial_state_store";
      tables = "birdbox_state" ∷ [];
      statements =
          "\n        CREATE TABLE IF NOT EXISTS birdbox_state (\n          state_key VARCHAR(64) NOT NULL PRIMARY KEY,\n          revision BIGINT UNSIGNED NOT NULL DEFAULT 1,\n          document JSON NOT NULL,\n          created_at TIMESTAMP(3) NOT NULL DEFAULT CURRENT_TIMESTAMP(3),\n          updated_at TIMESTAMP(3) NOT NULL DEFAULT CURRENT_TIMESTAMP(3) ON UPDATE CURRENT_TIMESTAMP(3)\n        ) ENGINE=InnoDB DEFAULT CHARSET=utf8mb4 COLLATE=utf8mb4_unicode_ci\n      "
          ∷ [];
    }
    ∷ record {
      version = 2;
      name = "persistent_audit_events";
      tables = "birdbox_audit_events" ∷ [];
      statements =
          "\n        CREATE TABLE IF NOT EXISTS birdbox_audit_events (\n          id BIGINT UNSIGNED NOT NULL AUTO_INCREMENT PRIMARY KEY,\n          occurred_at TIMESTAMP(3) NOT NULL DEFAULT CURRENT_TIMESTAMP(3),\n          request_id VARCHAR(64) NOT NULL,\n          actor VARCHAR(16) NOT NULL,\n          method VARCHAR(16) NOT NULL,\n          path VARCHAR(255) NOT NULL,\n          status SMALLINT UNSIGNED NOT NULL,\n          outcome VARCHAR(16) NOT NULL,\n          remote_address VARCHAR(128) NULL,\n          user_agent VARCHAR(512) NULL,\n          detail JSON NULL,\n          INDEX idx_birdbox_audit_events_occurred_at (occurred_at),\n          INDEX idx_birdbox_audit_events_path (path)\n        ) ENGINE=InnoDB DEFAULT CHARSET=utf8mb4 COLLATE=utf8mb4_unicode_ci\n      "
          ∷ [];
    }
    ∷ []

-- A row of `birdbox_schema_migrations`.
pub record MigrationRow : Type 0 where
  pub version : ℕ
  pub name : String

unfoldable pub invalid_schema : String → Text → Problem
invalid_schema table detail =
    database_error 500 "DATABASE_SCHEMA_INVALID" (units table ++ units " 的数据库结构不兼容：" ++ detail)

abbrev pub too_new : Problem
too_new = database_error 409 "DATABASE_SCHEMA_TOO_NEW" (units "数据库由更新版本的 Birdbox 初始化，当前版本拒绝继续运行")

abbrev pub migrations_table : String
migrations_table = "birdbox_schema_migrations"

-- The row is one of this program's migrations. The number in the last message is left out.
unfoldable pub check_row : List Migration → MigrationRow → Option Problem
check_row migrations row =
    if ltb row.version 1
    then some (invalid_schema migrations_table (units "包含无效的迁移版本"))
    else if ltb current_schema_version row.version
    then some too_new
    else elim (find (λ m. m.version == row.version) migrations) [
      | none ↦ some (invalid_schema migrations_table (units "迁移与当前程序不匹配"))
      | some expected ↦
          if str_eq row.name expected.name
          then none
          else some (invalid_schema migrations_table (units "迁移与当前程序不匹配"))
    ]

unfoldable pub check_rows : List Migration → List MigrationRow → Option Problem
check_rows migrations [] = none
check_rows migrations (row ∷ rows) =
    let rest = check_rows migrations rows in
    elim (check_row migrations row) [ some p ↦ some p | none ↦ rest ]

-- What is sent to the database, each with an answer of its own.
pub data Step : Type 0 where
  runs : String → Step
  verifies : String → Step
  records : ℕ → String → Step

unfoldable pub is_applied : ℕ → List MigrationRow → Bool
is_applied version rows = any (λ r. r.version == version) rows

unfoldable pub migration_steps : Migration → List Step
migration_steps m = map runs m.statements ++ map verifies m.tables ++ records m.version m.name ∷ []

unfoldable pub pending_steps : List MigrationRow → List Migration → List Step
pending_steps rows [] = []
pending_steps rows (m ∷ ms) =
    let rest = pending_steps rows ms in
    if is_applied m.version rows then rest else migration_steps m ++ rest

unfoldable pub verify_steps : List Migration → List Step
verify_steps [] = []
verify_steps (m ∷ ms) = map verifies m.tables ++ verify_steps ms

-- The steps that went well, up to the first that did not.
unfoldable pub perform : (Step → Option Problem) → List Step → List Step × Option Problem
perform answer [] = ([], none)
perform answer (x ∷ xs) =
    let rest = perform answer xs in
    elim (answer x) [ some p ↦ ([], some p) | none ↦ (x ∷ rest.0, rest.1) ]

unfoldable pub run_migrations :
    (Step → Option Problem) → List Migration → List MigrationRow → List Step × Option Problem
run_migrations answer migrations rows = elim (check_rows migrations rows) [
  | some p ↦ ([], some p)
  | none ↦ perform answer (pending_steps rows migrations ++ verify_steps migrations)
]

-- The rows that steps leave in the table of the migrations.
unfoldable pub recorded : List Step → List MigrationRow
recorded [] = []
recorded (runs s ∷ xs) = recorded xs
recorded (verifies t ∷ xs) = recorded xs
recorded (records version name ∷ xs) = record { version = version; name = name } ∷ recorded xs
