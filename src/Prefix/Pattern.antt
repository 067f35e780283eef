-- ===== src/Prefix/Pattern.antt =====
-- src/bird-prefix.ts: one prefix, or a list of them. `is_ip` is `net.isIP`: 4, 6, or 0 for no address.
use birdbox.Prelude.{
  ℕ, zero, suc, ◌+◌, ◌-◌, ◌*◌, Bool, false, not, ◌&&◌, ◌||◌, Option, none, some, List, [], ◌∷◌,
  ◌++◌, ◌==◌, ltb, leb, if◌then◌else◌, is_empty, filter, length, any, all,
}
use birdbox.Prelude.Text.{Text, units, is_space, same_text}
use birdbox.Prefix.Entries.{split_bird_prefix_entries}

-- The message of the error, whose status is 400.
pub data Checked (A : Type 0) : Type 0 where
  valid : A → Checked A
  refused : Text → Checked A

-- `value.replace(/\s+/g, "")`
unfoldable pub without_space : Text → Text
without_space text = filter (λ u. not (is_space u)) text

-- What stands before and behind the last slash.
unfoldable pub cut_slash : Text → Option (Text × Text)
cut_slash [] = none
cut_slash (u ∷ us) = elim (cut_slash us) [
  | some (before, behind) ↦ some (u ∷ before, behind)
  | none ↦ if u == 47 then some ([], us) else none
]

abbrev is_digit : ℕ → Bool
is_digit u = leb 48 u && leb u 57

-- Up to a number of digits, and what follows them.
unfoldable pub take_digits : ℕ → Text → Text × Text
take_digits zero text = ([], text)
take_digits (suc n) [] = ([], [])
take_digits (suc n) (u ∷ us) =
    let rest = take_digits n us in if is_digit u then (u ∷ rest.0, rest.1) else ([], u ∷ us)

unfoldable pub number_from : ℕ → Text → ℕ
number_from n [] = n
number_from n (u ∷ us) = number_from (n * 10 + (u - 48)) us

abbrev pub number : Text → ℕ
number digits = number_from 0 digits

-- `{low,high}`, up to the end.
unfoldable pub range_of : Text → Option (ℕ × ℕ)
range_of text =
    let (low, behind_low) = take_digits 3 text in
    elim behind_low [
      | [] ↦ none
      | comma ∷ after_comma ↦
          let (high, behind_high) = take_digits 3 after_comma in
          if comma == 44
            && (not (is_empty low) && (not (is_empty high) && same_text behind_high (125 ∷ [])))
          then some (number low, number high)
          else none
    ]

-- A match of `PREFIX_PATTERN_RE`; the range is there only where the pattern has one.
pub record Match : Type 0 where
  pub address : Text
  pub prefix_length : ℕ
  pub range : Option (ℕ × ℕ)

unfoldable pub matched : Text → ℕ → Text → Option Match
matched address prefix_length [] =
    some (record { address = address; prefix_length = prefix_length; range = none })
matched address prefix_length (u ∷ us) =
    if (u == 43 || u == 45) && is_empty us
    then some (record { address = address; prefix_length = prefix_length; range = none })
    else if u == 123
    then elim (range_of us) [
      | none ↦ none
      | some r ↦ some (record { address = address; prefix_length = prefix_length; range = some r })
    ]
    else none

unfoldable pub match_pattern : Text → Option Match
match_pattern pattern = elim (cut_slash pattern) [
  | none ↦ none
  | some (address, behind) ↦
      let (digits, more) = take_digits 3 behind in
      if is_empty address || is_empty digits then none else matched address (number digits) more
]

-- `.` of a regular expression.
abbrev is_in_line : ℕ → Bool
is_in_line u = not (any (λ v. v == u) (10 ∷ 13 ∷ 0x2028 ∷ 0x2029 ∷ []))

unfoldable pub is_exact_prefix : Text → Bool
is_exact_prefix pattern = elim (cut_slash pattern) [
  | none ↦ false
  | some (address, behind) ↦
      let (digits, more) = take_digits 3 behind in
      (not (is_empty address) && all is_in_line address) && (not (is_empty digits) && is_empty more)
]

abbrev pub maximum_for : ℕ → ℕ
maximum_for family = if family == 4 then 32 else 128

abbrev family_name : ℕ → Text
family_name family = if family == 4 then units "IPv4" else units "IPv6"

unfoldable pub family_refusal : Text → ℕ → Option ℕ → Option Text
family_refusal value family none = none
family_refusal value family (some expected) =
    if family == expected
    then none
    else some (units "CIDR 条目必须是 " ++ family_name expected ++ units ": " ++ value)

abbrev pub or_next : Option Text → Option Text → Option Text
or_next none next = next
or_next (some message) next = some message

unfoldable pub range_refusal : Text → ℕ → Option (ℕ × ℕ) → Option Text
range_refusal value family none = none
range_refusal value family (some (low, high)) =
    if ltb (maximum_for family) low || ltb (maximum_for family) high
    then some (units "无效的前缀长度范围，超出 " ++ family_name family ++ units " 范围: " ++ value)
    else if ltb high low
    then some (units "前缀长度范围必须从小到大: " ++ value)
    else none

unfoldable pub length_refusal : Text → ℕ → ℕ → Option Text
length_refusal value family prefix_length =
    if ltb (maximum_for family) prefix_length
    then some (units "前缀长度超出 " ++ family_name family ++ units " 范围: " ++ value)
    else none

abbrev pub no_pattern : Text → Text
no_pattern value = units "无效的 BIRD IP 前缀模式: " ++ value

-- What is wrong with a match, in the order of the tests.
unfoldable pub refusal : Text → ℕ → Option ℕ → Match → Option Text
refusal value family expected m =
    if family == 0
    then some (no_pattern value)
    else or_next (family_refusal value family expected)
        (or_next (length_refusal value family m.prefix_length) (range_refusal value family m.range))

module _ (is_ip : Text → ℕ) where
  unfoldable pub refusal_of : Text → Option ℕ → Option Match → Option Text
  refusal_of value expected none = some (no_pattern value)
  refusal_of value expected (some m) = refusal value (is_ip m.address) expected m

  unfoldable pub normalize_bird_prefix_pattern : Option ℕ → Text → Checked Text
  normalize_bird_prefix_pattern expected value =
      elim (refusal_of value expected (match_pattern (without_space value))) [
        | some message ↦ refused message
        | none ↦ valid (without_space value)
      ]

  unfoldable pub normalize_all : Option ℕ → List Text → Checked (List Text)
  normalize_all expected [] = valid []
  normalize_all expected (value ∷ values) =
      let rest = normalize_all expected values in
      elim (normalize_bird_prefix_pattern expected value) [
        | refused message ↦ refused message
        | valid entry ↦ elim rest [
          | refused message ↦ refused message
          | valid entries ↦ valid (entry ∷ entries)
        ]
      ]

-- Whether a text is there twice.
unfoldable pub repeated : List Text → Bool
repeated [] = false
repeated (t ∷ ts) = any (λ u. same_text t u) ts || repeated ts

-- A list, or a text that is to be split.
pub data EntriesInput : Type 0 where
  listed : List Text → EntriesInput
  written : Text → EntriesInput

unfoldable pub entries_of : EntriesInput → List Text
entries_of (listed entries) = entries
entries_of (written text) = split_bird_prefix_entries text

-- What is wrong with a list of patterns. The number in the second message is left out.
unfoldable pub list_refusal : ℕ → List Text → Option Text
list_refusal maximum_entries entries =
    if ltb (length entries) 1
    then some (units "CIDR 列表至少需要一个条目")
    else if ltb maximum_entries (length entries)
    then some (units "单个 CIDR 列表的条目过多")
    else if repeated entries
    then some (units "CIDR 列表包含重复条目")
    else none

unfoldable pub parse_bird_prefix_entries :
    (Text → ℕ) → Option ℕ → ℕ → EntriesInput → Checked (List Text)
parse_bird_prefix_entries is_ip expected maximum_entries input =
    elim (normalize_all is_ip expected (entries_of input)) [
      | refused message ↦ refused message
      | valid entries ↦ elim (list_refusal maximum_entries entries) [
        | some message ↦ refused message
        | none ↦ valid entries
      ]
    ]
