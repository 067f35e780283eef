-- ===== src/Auth/Changes.antt =====
-- The operations of src/auth.ts that change the stored state. Each takes the state that it observed
-- before its slow work, and the state that its transaction finds, which another may have changed.
use birdbox.Prelude.{
  ℕ, ◌-◌, String, Bool, true, false, not, Option, none, some, [], ◌∷◌, ◌++◌, str_eq, leb,
  if◌then◌else◌, is_some, filter, find, length,
}
use birdbox.Prelude.Text.{Text}
use birdbox.Auth.Password.{
  fine, bad, normalize_password, password_record_is_current, same_password, make_password_record,
  verify_password,
}
use birdbox.Auth.Sessions.{active_sessions, session_for_token, is_authenticated, create_session}
use birdbox.Auth.State.{
  ScryptParameters, PasswordRecord, StoredSession, AuthState, AuthError, already_configured,
  setup_required, session_limit, auth_required, current_password_invalid, state_changed,
  session_not_found, Outcome, changed, kept, throws, max_active_sessions,
}

-- What a call that opens a session brings along: the times of its first read, of the making of the
-- session and of its transaction, the random token, identifier and salt, the time for which sessions
-- are good, and where the caller comes from.
pub record Fresh : Type 0 where
  pub read_at : ℕ
  pub made_at : ℕ
  pub now : ℕ
  pub token : String
  pub id : String
  pub salt : String
  pub session_ttl_ms : ℕ
  pub address : Text
  pub user_agent : Text

-- The record of the new session.
unfoldable pub fresh_session : (String → String) → Fresh → StoredSession
fresh_session hash_token f =
    create_session hash_token f.id f.token f.made_at f.session_ttl_ms f.address f.user_agent

pub data Attempt : Type 0 where
  entered : AuthState → String → Attempt
  denied raced : Attempt
  refused : AuthError → Attempt

-- Where the stored scrypt parameters are bad, the call throws an error of its own.
abbrev pub upgraded : Option Bool → PasswordRecord → PasswordRecord → PasswordRecord
upgraded none old new = old
upgraded (some true) old new = old
upgraded (some false) old new = new

module _ (hash_token : String → String) where
  unfoldable pub setup_in : PasswordRecord → Fresh → AuthState → Outcome String
  setup_in password f current =
      if is_some current.password
      then throws already_configured
      else changed (record { password = some password; sessions = fresh_session hash_token f ∷ [] })
          f.token

  -- The transaction of one attempt to log in.
  unfoldable pub login_in : PasswordRecord → PasswordRecord → Fresh → AuthState → Attempt
  login_in observed password f current = elim current.password [
    | none ↦ refused setup_required
    | some now_stored ↦
        let sessions = active_sessions f.now current in
        if not (same_password now_stored observed)
        then raced
        else if leb max_active_sessions (length sessions)
        then refused session_limit
        else entered
            (record {
              password = some password;
              sessions = sessions ++ fresh_session hash_token f ∷ [];
            })
            f.token
  ]

abbrev pub after_race : Attempt → Attempt → Attempt
after_race raced again = again
after_race (entered s t) again = entered s t
after_race denied again = denied
after_race (refused e) again = refused e

module _ (hash_token : String → String) (derive : Text → String → ScryptParameters → String) where
  unfoldable pub setup : Option Text → Option Text → Fresh → AuthState → AuthState → Outcome String
  setup password confirmation f observed current =
      if is_some observed.password
      then throws already_configured
      else elim (normalize_password password confirmation) [
        | bad e ↦ throws e
        | fine text ↦ setup_in hash_token (make_password_record derive text f.salt) f current
      ]

  unfoldable pub login_attempt : Text → Fresh → AuthState → AuthState → Attempt
  login_attempt password f observed current = elim observed.password [
    | none ↦ refused setup_required
    | some seen ↦
        if not (verify_password derive password (some seen))
        then denied
        else login_in hash_token seen
            (upgraded (password_record_is_current seen) seen
              (make_password_record derive password f.salt))
            f current
  ]

  -- Two attempts; one that finds another password when it commits is made again.
  unfoldable pub login :
      Text → Fresh → AuthState → AuthState → Fresh → AuthState → AuthState → Attempt
  login password f observed current f' observed' current' =
      after_race (login_attempt password f observed current)
        (login_attempt password f' observed' current')

module _ (hash_token : String → String) where
  unfoldable pub change_password_in :
      String → PasswordRecord → PasswordRecord → Fresh → AuthState → Outcome String
  change_password_in token observed password f current = elim current.password [
    | none ↦ throws auth_required
    | some now_stored ↦
        if not (is_authenticated hash_token token f.now current)
        then throws auth_required
        else if not (same_password now_stored observed)
        then throws state_changed
        else changed
            (record { password = some password; sessions = fresh_session hash_token f ∷ [] })
            f.token
  ]

  unfoldable pub logout : String → ℕ → AuthState → Outcome Bool
  logout token now current = elim (session_for_token hash_token token now current) [
    | none ↦ kept false
    | some session ↦
        changed
          (record current {
            sessions = filter (λ s. not (str_eq s.id session.id)) (active_sessions now current);
          })
          true
  ]

  -- The answer says whether the caller has closed its own session.
  unfoldable pub revoke_session : String → String → ℕ → AuthState → Outcome Bool
  revoke_session token session_id now current =
      elim (session_for_token hash_token token now current) [
        | none ↦ throws auth_required
        | some caller ↦ elim (find (λ s. str_eq s.id session_id) (active_sessions now current)) [
          | none ↦ throws session_not_found
          | some target ↦
              changed
                (record current {
                  sessions =
                      filter (λ s. not (str_eq s.id target.id)) (active_sessions now current);
                })
                (str_eq target.id caller.id)
        ]
      ]

  unfoldable pub revoke_other_sessions : String → ℕ → AuthState → Outcome ℕ
  revoke_other_sessions token now current = elim (session_for_token hash_token token now current) [
    | none ↦ throws auth_required
    | some caller ↦
        changed (record current { sessions = caller ∷ [] })
          (length (active_sessions now current) - 1)
  ]

module _ (hash_token : String → String) (derive : Text → String → ScryptParameters → String) where
  unfoldable pub change_password :
      String → Text → Option Text → Option Text → Fresh → AuthState → AuthState → Outcome String
  change_password token current_password password confirmation f observed current =
      elim observed.password [
        | none ↦ throws auth_required
        | some seen ↦
            if not (is_authenticated hash_token token f.read_at observed)
            then throws auth_required
            else if not (verify_password derive current_password (some seen))
            then throws current_password_invalid
            else elim (normalize_password password confirmation) [
              | bad e ↦ throws e
              | fine text ↦
                  change_password_in hash_token token seen (make_password_record derive text f.salt)
                    f current
            ]
      ]
