-- ===== src/Database/Contract.antt =====
-- What a table must look like: `validateMySqlTableContract` of src/database.ts. The rows are those of
-- the schema of MySQL; a value that is NULL there is `none`, any other one is its text.
use birdbox.Prelude.{
  ℕ, zero, suc, ◌+◌, ◌-◌, String, Bool, true, false, not, ◌&&◌, ◌||◌, Option, none, some, List, [],
  ◌∷◌, map, ◌==◌, leb, if◌then◌else◌,
}
use birdbox.Prelude.Text.{Text, units, is_space}

pub record TableMetadataRow : Type 0 where
  pub engine : Option Text
  pub table_collation : Option Text

pub record ColumnMetadataRow : Type 0 where
  pub column_name : String
  pub column_type : Option Text
  pub is_nullable : Option Text
  pub column_default : Option Text
  pub extra : Option Text
  pub character_set_name : Option Text
  pub collation_name : Option Text
  pub ordinal_position : ℕ

pub record IndexMetadataRow : Type 0 where
  pub index_name : String
  pub non_unique : ℕ
  pub seq_in_index : ℕ
  pub column_name : String
  pub sub_part : Option ℕ
  pub index_type : Option Text

pub record TableMetadata : Type 0 where
  pub tables : List TableMetadataRow
  pub columns : List ColumnMetadataRow
  pub indexes : List IndexMetadataRow

pub record ColumnContract : Type 0 where
  pub name : String
  pub type : String
  pub nullable : Bool
  pub default_value : Option String
  pub extra : String
  pub character_set : Option String
  pub collation : Option String

pub record IndexContract : Type 0 where
  pub name : String
  pub type : String
  pub columns : List String

pub record TableContract : Type 0 where
  pub engine : String
  pub collation : String
  pub columns : List ColumnContract
  pub unique_indexes : List IndexContract

-- One space for each run of white space inside, none at the ends. `gap` tells that a run has begun.
unfoldable pub squeeze : Bool → Bool → Text → Text
squeeze begun gap [] = []
squeeze begun gap (u ∷ us) =
    let after_space = squeeze begun true us in
    let after_unit = squeeze true false us in
    if is_space u then after_space else if begun && gap then 32 ∷ u ∷ after_unit else u ∷ after_unit

-- The letters whose small ones belong to ASCII; K, the sign of Kelvin, is one of them. Any other
-- letter beyond ASCII stays beyond it, and no contract has one.
abbrev lower_unit : ℕ → ℕ
lower_unit u = if (leb 65 u && leb u 90) then u + 32 else if u == 0x212a then 107 else u

-- In the same way; of the letters beyond ASCII, the long s has the capital S.
abbrev pub upper_unit : ℕ → ℕ
upper_unit u = if (leb 97 u && leb u 122) then u - 32 else if u == 0x17f then 83 else u

unfoldable pub normalized_text : Text → Text
normalized_text text = map lower_unit (squeeze false false text)

unfoldable pub normalized_metadata_value : Option Text → Option Text
normalized_metadata_value none = none
normalized_metadata_value (some text) = some (normalized_text text)

-- `\w` of a regular expression.
abbrev is_word : ℕ → Bool
is_word u =
    (leb 48 u && leb u 57) || ((leb 65 u && leb u 90) || ((leb 97 u && leb u 122) || (u == 95)))

abbrev starts : Text → Text → Bool
starts [] text = true
starts (u ∷ us) [] = false
starts (u ∷ us) (v ∷ vs) = u == v && starts us vs

abbrev after_word : ℕ → Text → Bool
after_word zero [] = true
after_word zero (u ∷ us) = not (is_word u)
after_word (suc n) [] = false
after_word (suc n) (u ∷ us) = after_word n us

abbrev default_generated : Text
default_generated = units "default_generated"

-- Without the word; `skip` units of it are still to be dropped, and `inside` tells that the unit
-- before belongs to a word.
unfoldable pub without_word : ℕ → Bool → Text → Text
without_word skip inside [] = []
without_word (suc skip) inside (u ∷ us) = without_word skip (is_word u) us
without_word zero inside (u ∷ us) =
    let rest = without_word zero (is_word u) us in
    let dropped = without_word 16 (is_word u) us in
    if not inside && (starts default_generated (u ∷ us) && after_word 17 (u ∷ us))
    then dropped
    else u ∷ rest

unfoldable pub normalized_column_extra : Option Text → Option Text
normalized_column_extra none = none
normalized_column_extra (some text) =
    some (squeeze false false (without_word 0 false (normalized_text text)))
