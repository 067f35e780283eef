-- ===== src/Broker/Hex.antt =====
-- `sameHash` of src/agent-broker.ts, with `Buffer.from(text, "hex")` of Node: pairs of digits are
-- read until the first pair that is none.
use Prim.Native.Char.{code}
use Prim.Native.String.{String}
use birdbox.Prelude.{
  ℕ, ◌+◌, ◌*◌, ◌-◌, Bool, true, false, Option, none, some, List, [], ◌∷◌, ◌&&◌, leb, ◌==◌,
  if◌then◌else◌,
}

hex_digit : ℕ → Option ℕ
hex_digit c =
    if leb b'0' c && leb c b'9'
    then some (c - b'0')
    else if leb b'a' c && leb c b'f'
    then some (c - b'a' + 10)
    else if leb b'A' c && leb c b'F'
    then some (c - b'A' + 10)
    else none

prepend_byte : Option ℕ → Option ℕ → List ℕ → List ℕ
prepend_byte (some h) (some l) rest = (h * 16 + l) ∷ rest
prepend_byte (some h) none rest = []
prepend_byte none l rest = []

unfoldable pub from_hex : String → List ℕ
unfolding hex_digit prepend_byte
from_hex String.[] = []
from_hex (String.◌∷◌ c String.[]) = []
from_hex (String.◌∷◌ c (String.◌∷◌ d s)) =
    prepend_byte (hex_digit (code c)) (hex_digit (code d)) (from_hex s)

-- Equal lengths, and equal bytes.
unfoldable pub same_bytes : List ℕ → List ℕ → Bool
same_bytes [] [] = true
same_bytes (a ∷ as') (b ∷ bs) = a == b && same_bytes as' bs
same_bytes _ _ = false

unfoldable pub same_hash : String → String → Bool
same_hash left right = same_bytes (from_hex left) (from_hex right)
