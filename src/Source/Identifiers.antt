-- ===== src/Source/Identifiers.antt =====
-- packages/contracts/src/bird-source-identifiers.ts: the identifiers of a piece of BIRD source. The
-- cursor of the code is a mode that goes from unit to unit; what it writes is read for names.
use birdbox.Prelude.{ℕ, Bool, false, ◌&&◌, ◌||◌, List, [], ◌∷◌, ◌++◌, leb, ◌==◌, if◌then◌else◌, all}
use birdbox.Prelude.Text.{Text}

-- `in_symbol` carries what stands between the single quotes so far.
pub data Mode : Type 0 where
  in_code in_string in_string_escape in_line comment_open in_comment comment_close : Mode
  in_symbol in_symbol_escape : Text → Mode

abbrev pub is_letter : ℕ → Bool
is_letter c = (leb 65 c && leb c 90) || ((leb 97 c && leb c 122) || c == 95)

abbrev pub is_name_unit : ℕ → Bool
is_name_unit c = is_letter c || (leb 48 c && leb c 57)

-- `/^[A-Za-z_][A-Za-z0-9_]*$/`
abbrev pub is_name : Text → Bool
is_name [] = false
is_name (c ∷ text) = is_letter c && all is_name_unit text

unfoldable pub closed_symbol : Text → Text
closed_symbol name = if is_name name then 32 ∷ (name ++ 32 ∷ []) else 32 ∷ []

abbrev next_is : ℕ → Text → Bool
next_is c [] = false
next_is c (d ∷ text) = d == c

-- One unit, with the text behind it: the next mode, and what is written.
unfoldable pub step : Mode → ℕ → Text → Mode × Text
step in_code c text =
    if c == 39
    then (in_symbol [], [])
    else if c == 34
    then (in_string, 32 ∷ [])
    else if c == 35 || (c == 47 && next_is 47 text)
    then (in_line, 10 ∷ [])
    else if c == 47 && next_is 42 text
    then (comment_open, 32 ∷ [])
    else (in_code, c ∷ [])
step in_string c text =
    if c == 92
    then (in_string_escape, 32 ∷ [])
    else if c == 34
    then (in_code, 32 ∷ [])
    else (in_string, 32 ∷ [])
step in_string_escape c text = (in_string, [])
step in_line c text = if c == 10 then (in_code, 10 ∷ []) else (in_line, [])
step comment_open c text = (in_comment, [])
step in_comment c text =
    if c == 42 && next_is 47 text then (comment_close, []) else (in_comment, [])
step comment_close c text = (in_code, [])
step (in_symbol name) c text =
    if c == 39
    then (in_code, closed_symbol name)
    else if c == 92
    then (in_symbol_escape (name ++ c ∷ []), [])
    else (in_symbol (name ++ c ∷ []), [])
step (in_symbol_escape name) c text = (in_symbol (name ++ c ∷ []), [])

-- A symbol that is not closed leaves a space.
unfoldable pub finish : Mode → Text
finish (in_symbol name) = 32 ∷ []
finish (in_symbol_escape name) = 32 ∷ []
finish _ = []

unfoldable pub scan : Mode → Text → Text
scan mode [] = finish mode
scan mode (c ∷ text) = let (next, out) = step mode c text in out ++ scan next text

-- All matches of `/[A-Za-z_][A-Za-z0-9_]*/g`, where `word` is the match that is open.
unfoldable pub words : Text → Text → List Text
words [] [] = []
words (w ∷ word) [] = (w ∷ word) ∷ []
words [] (c ∷ text) =
    let open_word = words (c ∷ []) text in
    let rest = words [] text in if is_letter c then open_word else rest
words (w ∷ word) (c ∷ text) =
    let longer = words ((w ∷ word) ++ c ∷ []) text in
    let rest = words [] text in if is_name_unit c then longer else (w ∷ word) ∷ rest

unfoldable pub bird_identifier_list : Text → List Text
bird_identifier_list source = words [] (scan in_code source)
