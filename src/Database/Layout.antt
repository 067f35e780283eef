-- ===== src/Database/Layout.antt =====
-- What a table looks like that `validateMySqlTableContract` of src/database.ts lets pass.
use birdbox.Prelude.{
  ◌≡◌, refl, ap, ◌∙◌, ℕ, suc, ◌+◌, String, Bool, true, false, not, ◌&&◌, Option, none, some, List,
  [], ◌∷◌, map, str_eq, eq_iff, ◌==◌, arith, Bool-cases, Option-cases, and-true, inl, inr, length,
  length-sort_by, is_some, All,
}
use birdbox.Prelude.Dict
use birdbox.Prelude.Text.{Text}
use birdbox.Database.Contract.{
  TableMetadataRow, ColumnMetadataRow, IndexMetadataRow, TableMetadata, ColumnContract,
  IndexContract, TableContract, normalized_metadata_value,
}
use birdbox.Database.Validation.{
  is_value, first_failing, check_column, check_columns, or_next, group_indexes, check_index_rows,
  by_sequence, check_index, check_indexes, check_table, by_position, check_all_columns,
  check_all_indexes, check_contract, validate_mysql_table_contract,
}

or_next-none : (a b : Option Text) → or_next a b ≡ none → (a ≡ none) × (b ≡ none)
or_next-none none b e = (refl, e)
or_next-none (some d) b e = absurd (cc e)

first_failing-none :
    (holds : Bool) (detail : Text) (more : List (Bool × Text))
    → first_failing ((holds, detail) ∷ more) ≡ none
    → holds ≡ true
unfolding first_failing
first_failing-none true detail more e = refl
first_failing-none false detail more e = absurd (cc e)

check_column-name :
    (index : ℕ) (e : ColumnContract) (a : ColumnMetadataRow)
    → check_column index e a ≡ none
    → a.column_name ≡ e.name
unfolding check_column
check_column-name index e a h =
    let (same, _) = and-true (str_eq a.column_name e.name) _ (first_failing-none _ _ _ h) in
    (eq_iff a.column_name e.name).0 same

equal : (a b : ℕ) → (a == b) ≡ true → a ≡ b
equal a b h = ground arith

check_columns-names :
    (index : ℕ) (es : List ColumnContract) (as' : List ColumnMetadataRow)
    → length as' ≡ length es
    → check_columns index es as' ≡ none
    → map (λ a. a.column_name) as' ≡ map (λ e. e.name) es
unfolding check_columns
check_columns-names index [] [] same h = refl
check_columns-names index [] (a ∷ more) same h = absurd (omega (arith, same))
check_columns-names index (e ∷ es) [] same h = absurd (omega (arith, same))
check_columns-names index (e ∷ es) (a ∷ more) same h =
    let (here, rest) = or_next-none (check_column index e a) _ h in
    rw (check_column-name index e a here)
      (ap (λ t. e.name ∷ t) (check_columns-names (suc index) es more (omega (arith, same)) rest))

check_all_columns-names :
    (contract : TableContract) (columns : List ColumnMetadataRow)
    → check_all_columns contract columns ≡ none
    → map (λ a. a.column_name) columns ≡ map (λ e. e.name) contract.columns
unfolding check_all_columns
check_all_columns-names contract columns h =
    elim (Bool-cases (length columns == length contract.columns)) [
      | inl same ↦ check_columns-names 0 contract.columns columns (equal _ _ same) (rw same at h)
      | inr other ↦ absurd (let h' = rw other at h in cc h')
    ]

abbrev kind_fits : IndexContract → IndexMetadataRow → Bool
kind_fits e row =
    not (is_some row.sub_part) && is_value (normalized_metadata_value row.index_type) (some e.type)

check_index_rows-columns :
    (index : ℕ) (e : IndexContract) (columns : List String) (rows : List IndexMetadataRow)
    → check_index_rows index e columns rows ≡ none
    → length rows ≡ length columns
    → map (λ r. r.column_name) rows ≡ columns
unfolding check_index_rows
check_index_rows-columns index e [] [] h same = refl
check_index_rows-columns index e (c ∷ cs) [] h same = absurd (omega (arith, same))
check_index_rows-columns index e [] (row ∷ rows) h same = absurd (omega (arith, same))
check_index_rows-columns index e (c ∷ cs) (row ∷ rows) h same =
    elim (Bool-cases
      (row.seq_in_index == index + 1 && (str_eq row.column_name c && kind_fits e row))) [
        | inr other ↦ absurd (let h' = rw other at h in cc h')
        | inl fits ↦
            let (_, more) = and-true (row.seq_in_index == index + 1) _ fits in
            let (named, _) = and-true (str_eq row.column_name c) _ more in
            rw ((eq_iff row.column_name c).0 named) (
              ap (λ t. c ∷ t)
                (check_index_rows-columns (suc index) e cs rows (rw fits at h)
                  (omega (arith, same))))
      ]

-- The contract's columns in its order, under one index.
abbrev pub Indexed : Dict.Dict (List IndexMetadataRow) → IndexContract → Type 0
Indexed groups e =
    (rows : List IndexMetadataRow) × ((Dict.get e.name groups ≡ some rows)
      × (map (λ r. r.column_name) (by_sequence rows) ≡ e.columns))

check_index-Indexed :
    (groups : Dict.Dict (List IndexMetadataRow)) (e : IndexContract)
    → check_index groups e ≡ none
    → Indexed groups e
unfolding check_index
check_index-Indexed groups e h = elim (Option-cases (Dict.get e.name groups)) [
  | inl missing ↦ absurd (let h' = rw (missing, check_index) at h in cc h')
  | inr (rows, is) ↦ elim (Bool-cases (length rows == length e.columns)) [
    | inr other ↦ absurd (let h' = rw (is, check_index, other) at h in cc h')
    | inl same ↦ (
      rows,
      (
        is,
        check_index_rows-columns 0 e e.columns (by_sequence rows) (rw (is, check_index, same) at h)
            (length-sort_by (λ r. r.seq_in_index) rows ∙ equal _ _ same),
      ),
    )
  ]
]

check_indexes-Indexed :
    (groups : Dict.Dict (List IndexMetadataRow)) (es : List IndexContract)
    → check_indexes groups es ≡ none
    → All (Indexed groups) es
unfolding check_indexes
check_indexes-Indexed groups [] h = tt
check_indexes-Indexed groups (e ∷ es) h =
    let (here, rest) = or_next-none (check_index groups e) _ h in
    (check_index-Indexed groups e here, check_indexes-Indexed groups es rest)

check_all_indexes-Indexed :
    (contract : TableContract) (groups : Dict.Dict (List IndexMetadataRow))
    → check_all_indexes contract groups ≡ none
    → (length groups ≡ length contract.unique_indexes)
      × All (Indexed groups) contract.unique_indexes
unfolding check_all_indexes
check_all_indexes-Indexed contract groups h =
    elim (Bool-cases (length groups == length contract.unique_indexes)) [
      | inl same ↦
          (equal _ _ same, check_indexes-Indexed groups contract.unique_indexes (rw same at h))
      | inr other ↦ absurd (let h' = rw other at h in cc h')
    ]

-- The table has the contract's columns and its unique indexes, and no others.
abbrev pub IsLaidOut : TableContract → TableMetadata → Type 0
IsLaidOut contract m =
    (map (λ a. a.column_name) (by_position m.columns) ≡ map (λ e. e.name) contract.columns)
    × ((length (group_indexes [] m.indexes) ≡ length contract.unique_indexes)
        × All (Indexed (group_indexes [] m.indexes)) contract.unique_indexes)

check_contract-IsLaidOut :
    (contract : TableContract) (tables : List TableMetadataRow) (m : TableMetadata)
    → m.tables ≡ tables
    → check_contract contract m ≡ none
    → IsLaidOut contract m
unfolding check_contract
check_contract-IsLaidOut contract [] m is h =
    absurd (let h' = rw (is, check_contract) at h in cc h')
check_contract-IsLaidOut contract (t ∷ u ∷ more) m is h =
    absurd (let h' = rw (is, check_contract) at h in cc h')
check_contract-IsLaidOut contract (t ∷ []) m is h =
    let h' = rw (is, check_contract) at h in
    let (_, rest) = or_next-none (check_table contract t) _ h' in
    let (columns, indexes) =
      or_next-none (check_all_columns contract (by_position m.columns)) _ rest in
    (
      check_all_columns-names contract (by_position m.columns) columns,
      check_all_indexes-Indexed contract (group_indexes [] m.indexes) indexes,
    )

-- A table that passes has the columns of its contract, in their order and no others; it has as many
-- unique indexes as the contract, and each of the contract's is there, over its columns in order.
pub validate-IsLaidOut :
    (contracts : Dict.Dict TableContract) (table_name : String) (contract : TableContract)
    (m : TableMetadata)
    → Dict.get table_name contracts ≡ some contract
    → validate_mysql_table_contract contracts table_name m ≡ none
    → IsLaidOut contract m
unfolding validate_mysql_table_contract
validate-IsLaidOut contracts table_name contract m known h =
    elim (Option-cases (check_contract contract m)) [
      | inl fine ↦ check_contract-IsLaidOut contract m.tables m refl fine
      | inr (d, e) ↦ absurd (let h' = rw (known, validate_mysql_table_contract, e) at h in cc h')
    ]
