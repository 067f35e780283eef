-- ===== src/Auth/Takeover.antt =====
-- The operations of src/auth.ts that put the other sessions out.
use birdbox.Prelude.{
  ℕ, ◌+◌, ◌≡◌, ◌⊎◌, ◌∙◌, refl, String, Bool, true, false, not, ◌&&◌, ◌||◌, Option, none, some, List,
  [], ◌∷◌, arith, str_eq, is_some, length, ◌-◌, In, Bool-cases, Option-cases, inl, inr,
}
use birdbox.Prelude.Text.{Text}
use birdbox.Auth.State.{
  StoredSession, AuthState, PasswordRecord, ScryptParameters, AuthError, changed,
}
use birdbox.Auth.Sessions.{active_sessions, session_for_token, is_authenticated}
use birdbox.Auth.Password.{
  same_password, verify_password, make_password_record, normalize_password, fine, bad, Checked,
}
use birdbox.Auth.Changes.{
  Fresh, fresh_session, change_password, change_password_in, revoke_other_sessions,
}
use birdbox.Auth.Entry.{same_password-eq}
use birdbox.Auth.Lookup.{
  is_authenticated_lem, opens, any-In, session_for_token-In, is_fresh, opens-fresh_session,
}

pub Checked-cases : (x : Checked) → ((t : Text) × (x ≡ fine t)) ⊎ ((e : AuthError) × (x ≡ bad e))
Checked-cases (fine t) = inl (t, refl)
Checked-cases (bad e) = inr (e, refl)

abbrev state_of : Option PasswordRecord → List StoredSession → AuthState
state_of password ss = record { password = password; sessions = ss }

module _ (hash_token : String → String) (derive : Text → String → ScryptParameters → String) where
  alone_opens :
      (other : String) (later : ℕ) (password : PasswordRecord) (session : StoredSession)
      → is_authenticated hash_token other later
          (record { password = some password; sessions = session ∷ [] })
        ≡ (not (str_eq other "") && opens hash_token other later session)
  alone_opens other later password session =
      rw
        (is_authenticated_lem hash_token other later
          (record { password = some password; sessions = session ∷ [] }))
        (ground arith)

  -- A change of the password that `current` has come out as `c`, with a token for the caller.
  pub record IsChange (token : String) (old : Text) (f : Fresh) (current c : AuthState) (t : String)
      : Type 0 where
    pub answer : t ≡ f.token
    pub caller : is_authenticated hash_token token f.now current ≡ true
    pub verified : verify_password derive old current.password ≡ true
    pub one_left : length c.sessions ≡ 1
    pub alone :
        (other : String) (later : ℕ)
        → is_authenticated hash_token other later c ≡ is_fresh hash_token f other later

  change_password_in-IsChange :
      (token : String) (old : Text) (observed new : PasswordRecord) (f : Fresh)
      (password : Option PasswordRecord) (ss : List StoredSession) (c : AuthState) (t : String)
      → verify_password derive old (some observed) ≡ true
      → change_password_in hash_token token observed new f (state_of password ss) ≡ changed c t
      → IsChange token old f (state_of password ss) c t
  unfolding change_password_in
  change_password_in-IsChange token old observed new f none ss c t good e = absurd (cc e)
  change_password_in-IsChange token old observed new f (some stored) ss c t good e =
      elim (Bool-cases (is_authenticated hash_token token f.now (state_of (some stored) ss))) [
        | inr out ↦ absurd (let e' = rw out at e in cc e')
        | inl caller ↦ elim (Bool-cases (same_password stored observed)) [
          | inr other ↦ absurd (let e' = rw (caller, other) at e in cc e')
          | inl same ↦ let e' = rw (caller, same) at e in made caller same (cc e') (cc e')
        ]
      ]
    where
      made :
          is_authenticated hash_token token f.now (state_of (some stored) ss) ≡ true
          → same_password stored observed ≡ true
          → c ≡ record { password = some new; sessions = fresh_session hash_token f ∷ [] }
          → t ≡ f.token
          → IsChange token old f (state_of (some stored) ss) c t
      made caller same is answer = record {
        answer = answer;
        caller = caller;
        verified = rw (same_password-eq stored observed same) good;
        one_left = rw is refl;
        alone = λ other later. rw is (
            alone_opens other later new (fresh_session hash_token f)
            ∙ opens-fresh_session hash_token f other later);
      }

  -- A change of the password that succeeds was asked for by a session that is good when the
  -- transaction commits, and with the password that is stored then. It hands out the fresh token, and
  -- from there on a token is good exactly if it has the hash of the fresh one and the time of the new
  -- session has not run out: every session from before is out.
  pub change_password-IsChange :
      (token : String) (old : Text) (password confirmation : Option Text) (f : Fresh)
      (observed current c : AuthState) (t : String)
      → change_password hash_token derive token old password confirmation f observed current
        ≡ changed c t
      → IsChange token old f current c t
  unfolding change_password
  change_password-IsChange token old password confirmation f observed current =
      attempted observed.password observed.sessions
    where
      attempted :
          (stored : Option PasswordRecord) (ss : List StoredSession) (c : AuthState) (t : String)
          → change_password hash_token derive token old password confirmation f
              (record { password = stored; sessions = ss })
              current
            ≡ changed c t
          → IsChange token old f current c t
      attempted none ss c t e = absurd (cc e)
      attempted (some seen) ss c t e =
          elim (Bool-cases (
            is_authenticated hash_token token f.read_at
              (record { password = some seen; sessions = ss }))) [
                | inr out ↦ absurd (let e' = rw out at e in cc e')
                | inl caller ↦ elim (Bool-cases (verify_password derive old (some seen))) [
                  | inr wrong ↦ absurd (let e' = rw (caller, wrong) at e in cc e')
                  | inl good ↦ elim (Checked-cases (normalize_password password confirmation)) [
                    | inr (x, is) ↦ absurd (let e' = rw (caller, good, is) at e in cc e')
                    | inl (text, is) ↦
                        change_password_in-IsChange token old seen
                          (make_password_record derive text f.salt) f current.password
                          current.sessions c t good (rw (caller, good, is) at e)
                  ]
                ]
              ]

and-alone :
    (a b c : Bool) → (a && (b && (c || false))) ≡ true → (a ≡ true) × ((b ≡ true) × (c ≡ true))
and-alone true true true e = (refl, (refl, refl))
and-alone true true false e = absurd (cc e)
and-alone true false c e = absurd (cc e)
and-alone false b c e = absurd (cc e)

and-or : (a b : Bool) → (true && (a && (b || false))) ≡ (a && b)
and-or a b = ground arith

module _ (hash_token : String → String) where
  -- What is left when the other sessions are put out at `now`.
  pub record IsAlone (token : String) (now : ℕ) (state c : AuthState) (n : ℕ) : Type 0 where
    pub caller : is_authenticated hash_token token now c ≡ true
    pub password_kept : c.password ≡ state.password
    pub counted : length c.sessions + n ≡ length (active_sessions now state)
    pub own :
        (s : StoredSession) × (session_for_token hash_token token now state ≡ some s)
        × (c.sessions ≡ s ∷ [])
        × ((other : String) (later : ℕ)
            → is_authenticated hash_token other later c
              ≡ (not (str_eq other "") && opens hash_token other later s))
    pub still :
        (other : String) (later : ℕ)
        → is_authenticated hash_token other later c ≡ true
        → is_authenticated hash_token other later state ≡ true

  -- When the other sessions are put out, only the session that the token of the caller opens is left,
  -- and it is open: from there on a token is good exactly if it opens that session, and was good
  -- before. The password is as it was, and the answer is the number of active sessions that went.
  pub revoke_other_sessions-IsAlone :
      (token : String) (now : ℕ) (state c : AuthState) (n : ℕ)
      → revoke_other_sessions hash_token token now state ≡ changed c n
      → IsAlone token now state c n
  unfolding revoke_other_sessions
  revoke_other_sessions-IsAlone token now state c n e =
      elim (Option-cases (session_for_token hash_token token now state)) [
        | inl nobody ↦ absurd (let e' = rw (nobody, revoke_other_sessions) at e in cc e')
        | inr (caller, is) ↦
            let e' = rw (is, revoke_other_sessions) at e in alone caller is (cc e') (cc e')
      ]
    where
      only :
          (caller : StoredSession)
          → is_some state.password ≡ true
          → c ≡ record state { sessions = caller ∷ [] }
          → (other : String) (later : ℕ)
          → is_authenticated hash_token other later c
            ≡ (not (str_eq other "") && opens hash_token other later caller)
      only caller configured made other later =
          rw
            (
              made,
              is_authenticated_lem hash_token other later (record state { sessions = caller ∷ [] }),
              configured,
            )
            (and-or (not (str_eq other "")) _)

      still_open :
          (caller : StoredSession)
          → is_some state.password ≡ true
          → c ≡ record state { sessions = caller ∷ [] }
          → In caller state.sessions
          → (other : String) (later : ℕ) → is_authenticated hash_token other later c ≡ true
          → is_authenticated hash_token other later state ≡ true
      still_open caller configured made i other later h =
          let (p, (q, r)) =
            and-alone (is_some state.password) (not (str_eq other ""))
              (opens hash_token other later caller)
              (rw
                (
                  made,
                  is_authenticated_lem hash_token other later
                      (record state { sessions = caller ∷ [] }),
                )
                at h) in
          rw (is_authenticated_lem hash_token other later state, p, q)
            (any-In (opens hash_token other later) state.sessions i r)

      alone :
          (caller : StoredSession)
          → session_for_token hash_token token now state ≡ some caller
          → c ≡ record state { sessions = caller ∷ [] }
          → n ≡ length (active_sessions now state) - 1
          → IsAlone token now state c n
      alone caller is made count =
          let (configured, (given, (good, (i, some_active)))) =
            session_for_token-In hash_token token now state caller is in
          record {
            caller =
                rw
                  (
                    made,
                    is_authenticated_lem hash_token token now
                        (record state { sessions = caller ∷ [] }),
                    configured,
                    given,
                    good,
                  )
                  refl;
            password_kept = rw made refl;
            own =
                (caller, is, rw made refl, λ other later. only caller configured made other later);
            counted = rw made (omega (arith, count, some_active));
            still = λ other later h. still_open caller configured made i other later h;
          }
