-- ===== src/Source/Tests.antt =====
-- Runs of the models of packages/contracts/src/bird-source-identifiers.ts and src/bird-source.ts.
use birdbox.Prelude.{◌≡◌, refl, [], ◌∷◌, ◌++◌}
use birdbox.Prelude.Text.{Text, units}
use birdbox.Source.Identifiers.{bird_identifier_list, scan, step, finish, words, closed_symbol}
use birdbox.Source.Blocks.{
  check_block, check_from, advance, at_end, whole, closes_outer, in_code, check_block-whole,
}

source_read :
    bird_identifier_list (units "if net ~ \"a b\" /* c */ then 'd' // e")
    ≡ units "if" ∷ units "net" ∷ units "then" ∷ units "d" ∷ []
unfolding bird_identifier_list scan step finish words closed_symbol units
source_read = refl

abbrev name : Text
name = 97 ∷ 49 ∷ []

abbrev block : Text
block = 105 ∷ 102 ∷ 123 ∷ 125 ∷ []

block_whole : check_block block ≡ whole
unfolding check_block check_from advance at_end
block_whole = refl

outer_kept : check_block (125 ∷ 123 ∷ []) ≡ closes_outer
unfolding check_block check_from advance at_end
outer_kept = refl

check_block-whole_example :
    check_from in_code 1 (block ++ 10 ∷ 125 ∷ []) ≡ check_from in_code 1 (125 ∷ [])
check_block-whole_example = check_block-whole 1 block (125 ∷ []) block_whole
