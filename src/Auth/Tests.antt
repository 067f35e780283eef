-- ===== src/Auth/Tests.antt =====
-- Runs of the model of src/auth.ts, and its theorems at concrete inputs. The hash of a token is the
-- token itself, and the key of a password is its salt.
use birdbox.Prelude.{◌≡◌, ◌⊎◌, refl, String, some, List, [], ◌∷◌, arith}
use birdbox.Prelude.Text.{Text, same_text}
use birdbox.Broker.Hex.{from_hex, same_bytes}
use birdbox.Auth.State.{StoredSession, AuthState, PasswordRecord, ScryptParameters, changed}
use birdbox.Auth.Sessions.{
  active_sessions, session_for_token, is_authenticated, safe_hex_equal, create_session,
  normalize_session_text, collapse, trim_start,
}
use birdbox.Auth.Password.{
  scrypt_options, same_password, verify_password, make_password_record, normalize_password,
  normalize_scrypt_options, is_power_of_two, password_record_is_current,
}
use birdbox.Auth.Changes.{
  Fresh, fresh_session, entered, login, login_attempt, login_in, change_password,
  change_password_in, revoke_other_sessions,
}
use birdbox.Auth.Entry.{IsEntry, login-IsEntry}
use birdbox.Auth.Takeover.{
  IsChange, IsAlone, change_password-IsChange, revoke_other_sessions-IsAlone,
}
use birdbox.Auth.Limits.{
  Fits, commit_all, commit_all-Fits, logs_in, logs_out, revokes_others, Change,
}

abbrev hash_of : String → String
hash_of t = t

abbrev key_of : Text → String → ScryptParameters → String
key_of password salt o = salt

abbrev session : String → StoredSession
session token = record {
  id = token;
  token_hash = token;
  created_at = 1;
  expires_at = 100;
  address = [];
  user_agent = [];
}

abbrev stored : PasswordRecord
stored = record { salt = "5a"; hash = "5a"; params = some scrypt_options }

abbrev home : AuthState
home = record { password = some stored; sessions = session "aa" ∷ session "bb" ∷ [] }

abbrev fresh : Fresh
fresh = record {
  read_at = 1;
  made_at = 1;
  now = 5;
  token = "cc";
  id = "cc";
  salt = "6b";
  session_ttl_ms = 99;
  address = [];
  user_agent = [];
}

abbrev phrase : Text
phrase = 1 ∷ 2 ∷ 3 ∷ 4 ∷ 5 ∷ 6 ∷ 7 ∷ 8 ∷ 9 ∷ 10 ∷ []

auth_runs : Unit {0}
unfolding login login_attempt login_in change_password change_password_in revoke_other_sessions
    verify_password same_password normalize_password same_text normalize_scrypt_options
    is_power_of_two password_record_is_current make_password_record active_sessions
    session_for_token is_authenticated fresh_session create_session normalize_session_text collapse
    trim_start safe_hex_equal from_hex same_bytes
auth_runs = tt

abbrev entered_home : AuthState
entered_home = record {
  password = some stored;
  sessions = session "aa" ∷ session "bb" ∷ session "cc" ∷ [];
}

login_enters :
    login hash_of key_of phrase fresh home home fresh home home ≡ entered entered_home "cc"
unfolding auth_runs
login_enters = refl

login-IsEntry_example :
    IsEntry hash_of key_of phrase fresh home entered_home "cc"
    ⊎ IsEntry hash_of key_of phrase fresh home entered_home "cc"
login-IsEntry_example =
    login-IsEntry hash_of key_of phrase fresh home home fresh home home entered_home "cc"
      login_enters

abbrev changed_home : AuthState
changed_home = record {
  password = some (record { salt = "6b"; hash = "6b"; params = some scrypt_options });
  sessions = session "cc" ∷ [];
}

password_changes :
    change_password hash_of key_of "bb" phrase (some phrase) (some phrase) fresh home home
    ≡ changed changed_home "cc"
unfolding auth_runs
password_changes = refl

change_password-IsChange_example : IsChange hash_of key_of "bb" phrase fresh home changed_home "cc"
change_password-IsChange_example =
    change_password-IsChange hash_of key_of "bb" phrase (some phrase) (some phrase) fresh home home
      changed_home "cc" password_changes

abbrev lone_home : AuthState
lone_home = record { password = some stored; sessions = session "bb" ∷ [] }

others_go : revoke_other_sessions hash_of "bb" 5 home ≡ changed lone_home 1
unfolding auth_runs
others_go = refl

revoke_other_sessions-IsAlone_example : IsAlone hash_of "bb" 5 home lone_home 1
revoke_other_sessions-IsAlone_example =
    revoke_other_sessions-IsAlone hash_of "bb" 5 home lone_home 1 others_go

abbrev day : List Change
day = logs_in phrase fresh home ∷ logs_out "aa" 6 ∷ revokes_others "cc" 7 ∷ []

commit_all-Fits_example : Fits 64 (commit_all hash_of key_of home day)
commit_all-Fits_example = commit_all-Fits hash_of key_of 64 home day (omega arith) (omega arith)
