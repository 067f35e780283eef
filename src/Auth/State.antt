-- ===== src/Auth/State.antt =====
-- The stored state of src/auth.ts. A state is configured when it has a password, which is how the
-- code's two kinds of state differ.
use birdbox.Prelude.{ℕ, ◌*◌, String, Option, List}
use birdbox.Prelude.Text.{Text}

pub record ScryptParameters : Type 0 where
  pub n : ℕ
  pub r : ℕ
  pub p : ℕ
  pub maxmem : ℕ

pub record PasswordRecord : Type 0 where
  pub salt : String
  pub hash : String
  pub params : Option ScryptParameters

pub record StoredSession : Type 0 where
  pub id : String
  pub token_hash : String
  pub created_at : ℕ
  pub expires_at : ℕ
  pub address : Text
  pub user_agent : Text

pub record AuthState : Type 0 where
  pub password : Option PasswordRecord
  pub sessions : List StoredSession

pub data AuthError : Type 0 where
  password_invalid password_mismatch : AuthError
  already_configured setup_required session_limit : AuthError
  auth_required current_password_invalid state_changed session_not_found : AuthError

-- What a transaction on the stored state comes to: a new state, the old one, or an exception.
pub data Outcome (A : Type 0) : Type 0 where
  changed : AuthState → A → Outcome A
  kept : A → Outcome A
  throws : AuthError → Outcome A

abbrev pub password_min_length : ℕ
password_min_length = 10

abbrev pub password_max_length : ℕ
password_max_length = 128

abbrev pub max_active_sessions : ℕ
max_active_sessions = 64

abbrev pub max_session_address_length : ℕ
max_session_address_length = 128

abbrev pub max_session_user_agent_length : ℕ
max_session_user_agent_length = 512

abbrev pub auth_session_ttl_ms : ℕ
auth_session_ttl_ms = 12 * 60 * 60 * 1000
