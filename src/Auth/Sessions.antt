-- ===== src/Auth/Sessions.antt =====
-- Sessions in src/auth.ts. The hash of a token (SHA-256 in hex) is the parameter `hash_token`.
use birdbox.Prelude.{
  ℕ, ◌+◌, String, Bool, false, not, ◌&&◌, ◌||◌, Option, none, List, [], ◌∷◌, str_eq, ltb, leb, ◌==◌,
  if◌then◌else◌, is_some, is_empty, filter, find, take,
}
use birdbox.Prelude.Text.{Text}
use birdbox.Broker.Hex.{from_hex, same_bytes}
use birdbox.Auth.State.{
  StoredSession, AuthState, max_session_address_length, max_session_user_agent_length,
}

unfoldable pub safe_hex_equal : String → String → Bool
safe_hex_equal left right =
    not (is_empty (from_hex left)) && same_bytes (from_hex left) (from_hex right)

-- A control character becomes a space.
abbrev plain_unit : ℕ → ℕ
plain_unit c = if ltb c 0x20 || c == 0x7f then 0x20 else c

-- `\s` of JavaScript.
abbrev pub is_space : ℕ → Bool
is_space c =
    (leb 0x09 c && leb c 0x0d)
    || (c == 0x20
        || (c == 0xa0
            || (c == 0x1680
                || ((leb 0x2000 c && leb c 0x200a)
                    || (c == 0x2028
                        || (c == 0x2029
                            || (c == 0x202f || (c == 0x205f || (c == 0x3000 || c == 0xfeff)))))))))

-- Runs of white space become one space, none at either end: the flag says whether a space is due
-- before the next character.
unfoldable pub collapse : Bool → Text → Text
collapse due [] = []
collapse due (c ∷ text) =
    let space = is_space (plain_unit c) in
    let rest = collapse space text in
    let more = collapse (due || space) text in
    if space then more else if due then 0x20 ∷ plain_unit c ∷ rest else plain_unit c ∷ rest

-- Leading white space is dropped before the first character.
unfoldable pub trim_start : Text → Text
trim_start [] = []
trim_start (c ∷ text) =
    let rest = trim_start text in if is_space (plain_unit c) then rest else c ∷ text

unfoldable pub normalize_session_text : ℕ → Text → Text
normalize_session_text maximum value = take maximum (collapse false (trim_start value))

abbrev pub is_active : ℕ → StoredSession → Bool
is_active now s = ltb now s.expires_at

unfoldable pub active_sessions : ℕ → AuthState → List StoredSession
active_sessions now state = filter (is_active now) state.sessions

module _ (hash_token : String → String) where
  -- The session with its random identifier and token given.
  unfoldable pub create_session : String → String → ℕ → ℕ → Text → Text → StoredSession
  create_session id token now ttl address user_agent = record {
    id = id;
    token_hash = hash_token token;
    created_at = now;
    expires_at = now + ttl;
    address = normalize_session_text max_session_address_length address;
    user_agent = normalize_session_text max_session_user_agent_length user_agent;
  }

  abbrev pub matches : String → StoredSession → Bool
  matches token s = safe_hex_equal (hash_token token) s.token_hash

  unfoldable pub session_for_token : String → ℕ → AuthState → Option StoredSession
  session_for_token token now state =
      if not (is_some state.password) || str_eq token ""
      then none
      else find (matches token) (active_sessions now state)

  unfoldable pub is_authenticated : String → ℕ → AuthState → Bool
  is_authenticated token now state = is_some (session_for_token token now state)
