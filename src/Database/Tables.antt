-- ===== src/Database/Tables.antt =====
-- The contracts of the tables, `MYSQL_TABLE_CONTRACTS` of src/database.ts.
use birdbox.Prelude.{true, false, none, some, [], ◌∷◌}
use birdbox.Prelude.Dict
use birdbox.Database.Contract.{TableContract}

abbrev pub birdbox_schema_migrations : TableContract
birdbox_schema_migrations = record {
  engine = "innodb";
  collation = "utf8mb4_unicode_ci";
  columns =
      record {
        name = "version";
        type = "int unsigned";
        nullable = false;
        default_value = none;
        extra = "";
        character_set = none;
        collation = none;
      }
      ∷ record {
        name = "name";
        type = "varchar(128)";
        nullable = false;
        default_value = none;
        extra = "";
        character_set = some "utf8mb4";
        collation = some "utf8mb4_unicode_ci";
      }
      ∷ record {
        name = "applied_at";
        type = "timestamp(3)";
        nullable = false;
        default_value = some "current_timestamp(3)";
        extra = "";
        character_set = none;
        collation = none;
      }
      ∷ [];
  unique_indexes = record { name = "PRIMARY"; type = "btree"; columns = "version" ∷ [] } ∷ [];
}

abbrev birdbox_state : TableContract
birdbox_state = record {
  engine = "innodb";
  collation = "utf8mb4_unicode_ci";
  columns =
      record {
        name = "state_key";
        type = "varchar(64)";
        nullable = false;
        default_value = none;
        extra = "";
        character_set = some "utf8mb4";
        collation = some "utf8mb4_unicode_ci";
      }
      ∷ record {
        name = "revision";
        type = "bigint unsigned";
        nullable = false;
        default_value = some "1";
        extra = "";
        character_set = none;
        collation = none;
      }
      ∷ record {
        name = "document";
        type = "json";
        nullable = false;
        default_value = none;
        extra = "";
        character_set = none;
        collation = none;
      }
      ∷ record {
        name = "created_at";
        type = "timestamp(3)";
        nullable = false;
        default_value = some "current_timestamp(3)";
        extra = "";
        character_set = none;
        collation = none;
      }
      ∷ record {
        name = "updated_at";
        type = "timestamp(3)";
        nullable = false;
        default_value = some "current_timestamp(3)";
        extra = "on update current_timestamp(3)";
        character_set = none;
        collation = none;
      }
      ∷ [];
  unique_indexes = record { name = "PRIMARY"; type = "btree"; columns = "state_key" ∷ [] } ∷ [];
}

abbrev birdbox_audit_events : TableContract
birdbox_audit_events = record {
  engine = "innodb";
  collation = "utf8mb4_unicode_ci";
  columns =
      record {
        name = "id";
        type = "bigint unsigned";
        nullable = false;
        default_value = none;
        extra = "auto_increment";
        character_set = none;
        collation = none;
      }
      ∷ record {
        name = "occurred_at";
        type = "timestamp(3)";
        nullable = false;
        default_value = some "current_timestamp(3)";
        extra = "";
        character_set = none;
        collation = none;
      }
      ∷ record {
        name = "request_id";
        type = "varchar(64)";
        nullable = false;
        default_value = none;
        extra = "";
        character_set = some "utf8mb4";
        collation = some "utf8mb4_unicode_ci";
      }
      ∷ record {
        name = "actor";
        type = "varchar(16)";
        nullable = false;
        default_value = none;
        extra = "";
        character_set = some "utf8mb4";
        collation = some "utf8mb4_unicode_ci";
      }
      ∷ record {
        name = "method";
        type = "varchar(16)";
        nullable = false;
        default_value = none;
        extra = "";
        character_set = some "utf8mb4";
        collation = some "utf8mb4_unicode_ci";
      }
      ∷ record {
        name = "path";
        type = "varchar(255)";
        nullable = false;
        default_value = none;
        extra = "";
        character_set = some "utf8mb4";
        collation = some "utf8mb4_unicode_ci";
      }
      ∷ record {
        name = "status";
        type = "smallint unsigned";
        nullable = false;
        default_value = none;
        extra = "";
        character_set = none;
        collation = none;
      }
      ∷ record {
        name = "outcome";
        type = "varchar(16)";
        nullable = false;
        default_value = none;
        extra = "";
        character_set = some "utf8mb4";
        collation = some "utf8mb4_unicode_ci";
      }
      ∷ record {
        name = "remote_address";
        type = "varchar(128)";
        nullable = true;
        default_value = none;
        extra = "";
        character_set = some "utf8mb4";
        collation = some "utf8mb4_unicode_ci";
      }
      ∷ record {
        name = "user_agent";
        type = "varchar(512)";
        nullable = true;
        default_value = none;
        extra = "";
        character_set = some "utf8mb4";
        collation = some "utf8mb4_unicode_ci";
      }
      ∷ record {
        name = "detail";
        type = "json";
        nullable = true;
        default_value = none;
        extra = "";
        character_set = none;
        collation = none;
      }
      ∷ [];
  unique_indexes = record { name = "PRIMARY"; type = "btree"; columns = "id" ∷ [] } ∷ [];
}

abbrev pub mysql_table_contracts : Dict.Dict TableContract
mysql_table_contracts =
    ("birdbox_schema_migrations", birdbox_schema_migrations)
    ∷ ("birdbox_state", birdbox_state)
    ∷ ("birdbox_audit_events", birdbox_audit_events)
    ∷ []
