-- ===== src/Prelude/Text.antt =====
-- JavaScript strings as their UTF-16 code units, for the code that measures or cuts them.
use Prim.Native.Nat.{ℕ, ◌+◌, ◌-◌, ◌/◌, ◌%◌}
use Prim.Native.Char.{code}
use Prim.Native.String.{String}
use mathlib.Core.List.{List, [], ◌∷◌}
use mathlib.Core.Bool.{Bool, true, false, ◌&&◌, ◌||◌}
use birdbox.Prelude.Lists.{any, is_empty}
use birdbox.Prelude.Tests.{ltb, leb, ◌==◌, if◌then◌else◌}

abbrev pub Text : Type 0
Text = List ℕ

-- A code point beyond the basic plane is a pair of surrogates.
unfoldable pub units : String → Text
units String.[] = []
units (String.◌∷◌ c s) =
    let rest = units s in
    if ltb (code c) 0x10000
    then code c ∷ rest
    else (0xd800 + (code c - 0x10000) / 0x400) ∷ (0xdc00 + (code c - 0x10000) % 0x400) ∷ rest

-- Two texts with the same code units.
unfoldable pub same_text : Text → Text → Bool
same_text [] [] = true
same_text [] (v ∷ vs) = false
same_text (u ∷ us) [] = false
same_text (u ∷ us) (v ∷ vs) = u == v && same_text us vs

-- The white space of JavaScript.
abbrev pub is_space : ℕ → Bool
is_space u =
    (leb 9 u && leb u 13)
    || (any (λ s. s == u)
          (32 ∷ 160 ∷ 0x1680 ∷ 0x2028 ∷ 0x2029 ∷ 0x202f ∷ 0x205f ∷ 0x3000 ∷ 0xfeff ∷ [])
        || (leb 0x2000 u && leb u 0x200a))

unfoldable pub trim_start : Text → Text
trim_start [] = []
trim_start (u ∷ us) = let rest = trim_start us in if is_space u then rest else u ∷ us

unfoldable pub trim_end : Text → Text
trim_end [] = []
trim_end (u ∷ us) = let rest = trim_end us in if is_empty rest && is_space u then [] else u ∷ rest

-- `text.trim()`
unfoldable pub trim : Text → Text
trim text = trim_end (trim_start text)
