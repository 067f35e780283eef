-- ===== src/Database/Validation.antt =====
-- `validateMySqlTableContract` of src/database.ts.
use birdbox.Prelude.{
  ℕ, suc, ◌+◌, String, Bool, true, false, not, ◌&&◌, Option, none, some, List, [], ◌∷◌, ◌++◌, map,
  str_eq, ◌==◌, if◌then◌else◌, length, is_empty, is_some, or_else, sort_by,
}
use birdbox.Prelude.Dict
use birdbox.Prelude.Text.{Text, units, same_text}
use birdbox.Database.State.{Problem, database_error}
use birdbox.Database.Migrations.{invalid_schema}
use birdbox.Database.Contract.{
  TableMetadataRow, ColumnMetadataRow, IndexMetadataRow, TableMetadata, ColumnContract,
  IndexContract, TableContract, normalized_metadata_value, normalized_column_extra, upper_unit,
}

-- Whether a value that may be NULL is the one that is wanted.
unfoldable pub is_value : Option Text → Option String → Bool
is_value none none = true
is_value none (some wanted) = false
is_value (some text) none = false
is_value (some text) (some wanted) = same_text text (units wanted)

-- The first test that fails.
unfoldable pub first_failing : List (Bool × Text) → Option Text
first_failing [] = none
first_failing ((holds, detail) ∷ more) = if holds then first_failing more else some detail

abbrev yes_no : Bool → Text
yes_no nullable = if nullable then units "YES" else units "NO"

-- `String(value).toUpperCase()`
abbrev shout : Option Text → Text
shout none = units "NULL"
shout (some text) = map upper_unit text

abbrev pub not_matching : Text
not_matching = units "列集合与当前程序不匹配"

-- The column at an index, which counts from 0; the number in the first message is left out.
unfoldable pub check_column : ℕ → ColumnContract → ColumnMetadataRow → Option Text
check_column index expected actual = first_failing (
    (
      str_eq actual.column_name expected.name && actual.ordinal_position == index + 1,
      units "列必须为 " ++ units expected.name,
    )
    ∷ (
      is_value (normalized_metadata_value actual.column_type) (some expected.type),
      units expected.name ++ units " 的类型必须为 " ++ units expected.type,
    )
    ∷ (
      same_text (shout actual.is_nullable) (yes_no expected.nullable),
      units expected.name ++ units " 的 NULL 约束不兼容",
    )
    ∷ (
      is_value (normalized_metadata_value actual.column_default) expected.default_value,
      units expected.name ++ units " 的默认值不兼容",
    )
    ∷ (
      is_value (normalized_column_extra actual.extra) (some expected.extra),
      units expected.name ++ units " 的自动更新或生成属性不兼容",
    )
    ∷ (
      is_value (normalized_metadata_value actual.character_set_name) expected.character_set,
      units expected.name ++ units " 的字符集不兼容",
    )
    ∷ (
      is_value (normalized_metadata_value actual.collation_name) expected.collation,
      units expected.name ++ units " 的排序规则不兼容",
    )
    ∷ [])

abbrev pub or_next : Option Text → Option Text → Option Text
or_next none next = next
or_next (some detail) next = some detail

unfoldable pub check_columns : ℕ → List ColumnContract → List ColumnMetadataRow → Option Text
check_columns index [] actual = none
check_columns index (e ∷ es) [] = some not_matching
check_columns index (e ∷ es) (a ∷ more) =
    let rest = check_columns (suc index) es more in or_next (check_column index e a) rest

-- The rows of the unique indexes, under the name of each.
unfoldable pub group_indexes :
    Dict.Dict (List IndexMetadataRow) → List IndexMetadataRow → Dict.Dict (List IndexMetadataRow)
group_indexes groups [] = groups
group_indexes groups (row ∷ rows) =
    let grown =
      Dict.set row.index_name (or_else (Dict.get row.index_name groups) [] ++ row ∷ []) groups in
    let with_row = group_indexes grown rows in
    let without_row = group_indexes groups rows in
    if row.non_unique == 0 then with_row else without_row

abbrev index_differs : String → Text
index_differs name = units name ++ units " 索引列或顺序不兼容"

unfoldable pub check_index_rows :
    ℕ → IndexContract → List String → List IndexMetadataRow → Option Text
check_index_rows index expected columns [] = none
check_index_rows index expected [] (row ∷ rows) = some (index_differs expected.name)
check_index_rows index expected (c ∷ cs) (row ∷ rows) =
    let rest = check_index_rows (suc index) expected cs rows in
    if row.seq_in_index == index + 1
      && (str_eq row.column_name c
          && (not (is_some row.sub_part)
              && is_value (normalized_metadata_value row.index_type) (some expected.type)))
    then rest
    else some (index_differs expected.name)

abbrev pub by_sequence : List IndexMetadataRow → List IndexMetadataRow
by_sequence rows = sort_by (λ r. r.seq_in_index) rows

unfoldable pub check_index : Dict.Dict (List IndexMetadataRow) → IndexContract → Option Text
check_index groups expected = elim (Dict.get expected.name groups) [
  | none ↦ some (units expected.name ++ units " 索引定义不兼容")
  | some rows ↦
      if length rows == length expected.columns
      then check_index_rows 0 expected expected.columns (by_sequence rows)
      else some (units expected.name ++ units " 索引定义不兼容")
]

unfoldable pub check_indexes : Dict.Dict (List IndexMetadataRow) → List IndexContract → Option Text
check_indexes groups [] = none
check_indexes groups (e ∷ es) =
    let rest = check_indexes groups es in or_next (check_index groups e) rest

unfoldable pub check_table : TableContract → TableMetadataRow → Option Text
check_table contract table = first_failing (
    (
      is_value (normalized_metadata_value table.engine) (some contract.engine),
      units "存储引擎必须为 InnoDB",
    )
    ∷ (
      is_value (normalized_metadata_value table.table_collation) (some contract.collation),
      units "表排序规则必须为 " ++ units contract.collation,
    )
    ∷ [])

abbrev pub by_position : List ColumnMetadataRow → List ColumnMetadataRow
by_position columns = sort_by (λ c. c.ordinal_position) columns

unfoldable pub check_all_columns : TableContract → List ColumnMetadataRow → Option Text
check_all_columns contract columns =
    if length columns == length contract.columns
    then check_columns 0 contract.columns columns
    else some not_matching

unfoldable pub check_all_indexes : TableContract → Dict.Dict (List IndexMetadataRow) → Option Text
check_all_indexes contract groups =
    if length groups == length contract.unique_indexes
    then check_indexes groups contract.unique_indexes
    else some (units "唯一索引集合与当前程序不匹配")

-- The detail of the error, if there is one.
unfoldable pub check_contract : TableContract → TableMetadata → Option Text
check_contract contract metadata = elim metadata.tables [
  | [] ↦ some (units "表不存在")
  | table ∷ more ↦
      if is_empty more
      then or_next (check_table contract table) (
          or_next (check_all_columns contract (by_position metadata.columns))
            (check_all_indexes contract (group_indexes [] metadata.indexes)))
      else some (units "表定义重复")
]

unfoldable pub validate_mysql_table_contract :
    Dict.Dict TableContract → String → TableMetadata → Option Problem
validate_mysql_table_contract contracts table_name metadata = elim (Dict.get table_name contracts) [
  | none ↦ some (database_error 0 "" (units "未知的 MySQL 表契约：" ++ units table_name))
  | some contract ↦ elim (check_contract contract metadata) [
    | none ↦ none
    | some detail ↦ some (invalid_schema table_name detail)
  ]
]
