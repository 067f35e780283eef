-- ===== src/Auth/Entry.antt =====
-- What a successful login of src/auth.ts has checked, and what it adds.
use birdbox.Prelude.{
  and-true, ℕ, ◌+◌, ◌≤◌, ◌≡◌, ◌⊎◌, ◌∙◌, refl, ap, String, Bool, true, false, not, ◌&&◌, ◌||◌,
  Option, none, some, [], ◌∷◌, ◌++◌, arith, str_eq, eq_iff, leb, ◌==◌, filter, length,
  length-append, Bool-cases, Option-cases, inl, inr,
}
use birdbox.Prelude.Text.{Text}
use birdbox.Auth.State.{
  StoredSession, AuthState, PasswordRecord, ScryptParameters, max_active_sessions,
}
use birdbox.Auth.Sessions.{is_active, active_sessions, is_authenticated}
use birdbox.Auth.Password.{same_password, same_optional_params, verify_password}
use birdbox.Auth.Changes.{
  Fresh, fresh_session, Attempt, entered, denied, raced, refused, after_race, login_in,
  login_attempt, login,
}
use birdbox.Auth.Lookup.{
  is_authenticated_lem, opens, any-append, any-active_opens, is_fresh, opens-fresh_session,
}

number-eq : (a b : ℕ) → (a == b) ≡ true → a ≡ b
number-eq a b e = ground arith

parameters-eq :
    (a b : ScryptParameters) → a.n ≡ b.n → a.r ≡ b.r → a.p ≡ b.p → a.maxmem ≡ b.maxmem → a ≡ b
parameters-eq a b e f g h = λ i. record { n = e i; r = f i; p = g i; maxmem = h i }

same_optional_params-eq : (a b : Option ScryptParameters) → same_optional_params a b ≡ true → a ≡ b
same_optional_params-eq none none e = refl
same_optional_params-eq none (some y) e = absurd (cc e)
same_optional_params-eq (some x) none e = absurd (cc e)
same_optional_params-eq (some x) (some y) e =
    let (n, e1) = and-true (x.n == y.n) _ e in
    let (r, e2) = and-true (x.r == y.r) _ e1 in
    let (p, m) = and-true (x.p == y.p) _ e2 in
    ap some
      (parameters-eq x y (number-eq _ _ n) (number-eq _ _ r) (number-eq _ _ p) (number-eq _ _ m))

pub same_password-eq : (a b : PasswordRecord) → same_password a b ≡ true → a ≡ b
unfolding same_password
same_password-eq a b e =
    let (s, e1) = and-true (str_eq a.salt b.salt) _ e in
    let (h, p) = and-true (str_eq a.hash b.hash) _ e1 in
    record_eq ((eq_iff _ _).0 s) ((eq_iff _ _).0 h) (same_optional_params-eq a.params b.params p)
  where
    record_eq : a.salt ≡ b.salt → a.hash ≡ b.hash → a.params ≡ b.params → a ≡ b
    record_eq s h p = λ i. record { salt = s i; hash = h i; params = p i }

pub login_in-entered :
    (hash_token : String → String) (observed password : PasswordRecord) (f : Fresh)
    (current c : AuthState) (t : String)
    → login_in hash_token observed password f current ≡ entered c t
    → (stored : PasswordRecord) × ((current.password ≡ some stored)
        × ((same_password stored observed ≡ true)
            × ((leb 64 (length (active_sessions f.now current)) ≡ false)
                × ((c ≡ record {
                  password = some password;
                  sessions = active_sessions f.now current ++ fresh_session hash_token f ∷ [];
                })
                    × (t ≡ f.token)))))
unfolding login_in active_sessions
login_in-entered hash_token observed password f current c t e =
    elim (Option-cases current.password) [
      | inl empty ↦ absurd (let e' = rw (empty) at e in cc e')
      | inr (stored, is) ↦ elim (Bool-cases (same_password stored observed)) [
        | inl same ↦ elim (Bool-cases (leb 64 (length (active_sessions f.now current)))) [
          | inl full ↦ absurd (let e' = rw (is, same, full) at e in cc e')
          | inr fits ↦
              let e' = rw (is, same, fits) at e in (stored, (is, (same, (fits, (cc e', cc e')))))
        ]
        | inr other ↦ absurd (let e' = rw (is, other) at e in cc e')
      ]
    ]

-- The tokens that open a state once a session is added to those that are active.
adds_session :
    (hash_token : String → String) (other : String) (now wait : ℕ) (state : AuthState)
    (stored password : PasswordRecord) (session : StoredSession)
    → state.password ≡ some stored
    → is_authenticated hash_token other
        (now + wait)
        (record { password = some password; sessions = active_sessions now state ++ session ∷ [] })
      ≡ (is_authenticated hash_token other (now + wait) state
          || (not (str_eq other "") && opens hash_token other (now + wait) session))
unfolding active_sessions
adds_session hash_token other now wait state stored password session e =
    rw
      (
        is_authenticated_lem hash_token other (now + wait) state,
        is_authenticated_lem hash_token other (now + wait) (record {
          password = some password;
          sessions = active_sessions now state ++ session ∷ [];
        }),
        e,
        any-append (opens hash_token other (now + wait)) (filter (is_active now) state.sessions)
            (session ∷ []),
        any-active_opens hash_token other now wait state.sessions,
      )
      (distribute (not (str_eq other "")) _ _)
  where
    distribute : (a b c : Bool) → (a && (b || (c || false))) ≡ ((a && b) || (a && c))
    distribute a b c = ground arith

after_race-cases :
    (a b : Attempt) (c : AuthState) (t : String)
    → after_race a b ≡ entered c t
    → (a ≡ entered c t) ⊎ (b ≡ entered c t)
after_race-cases raced b c t e = inr e
after_race-cases (entered s u) b c t e = inl e
after_race-cases denied b c t e = inl e
after_race-cases (refused x) b c t e = inl e

module _ (hash_token : String → String) (derive : Text → String → ScryptParameters → String) where
  -- A login by `password` that the transaction on `current` has let in.
  pub record IsEntry (password : Text) (f : Fresh) (current c : AuthState) (t : String)
      : Type 0 where
    pub token : t ≡ f.token
    pub verified : verify_password derive password current.password ≡ true
    pub fits : length c.sessions ≤ max_active_sessions
    pub adds :
        (other : String) (wait : ℕ)
        → is_authenticated hash_token other (f.now + wait) c ≡ (
            is_authenticated hash_token other (f.now + wait) current
            || is_fresh hash_token f other (f.now + wait))

  login_in-IsEntry :
      (password : Text) (observed new : PasswordRecord) (f : Fresh) (current c : AuthState)
      (t : String)
      → verify_password derive password (some observed) ≡ true
      → login_in hash_token observed new f current ≡ entered c t
      → IsEntry password f current c t
  login_in-IsEntry password observed new f current c t good e =
      let (stored, (is, (same, (fits, (made, token))))) =
        login_in-entered hash_token observed new f current c t e in
      record {
        token = token;
        verified = rw (is, same_password-eq stored observed same) good;
        fits = rw made (
            omega (
              arith,
              length-append (active_sessions f.now current) (fresh_session hash_token f ∷ []),
              below _ fits,
            ));
        adds = λ other wait. rw made (
            adds_session hash_token other f.now wait current stored new (fresh_session hash_token f)
              is
            ∙ ap (λ x. is_authenticated hash_token other (f.now + wait) current || x)
                (opens-fresh_session hash_token f other (f.now + wait)));
      }
    where
      below : (n : ℕ) → leb 64 n ≡ false → n ≤ 63
      below n h = ground arith

  pub login_attempt-IsEntry :
      (password : Text) (f : Fresh) (observed current c : AuthState) (t : String)
      → login_attempt hash_token derive password f observed current ≡ entered c t
      → IsEntry password f current c t
  unfolding login_attempt
  login_attempt-IsEntry password f observed current c t e = elim (Option-cases observed.password) [
    | inl empty ↦ absurd (let e' = rw empty at e in cc e')
    | inr (seen, is) ↦ elim (Bool-cases (verify_password derive password (some seen))) [
      | inl good ↦ login_in-IsEntry password seen _ f current c t good (rw (is, good) at e)
      | inr wrong ↦ absurd (let e' = rw (is, wrong) at e in cc e')
    ]
  ]

  -- A login that lets the caller in, at the first or the second attempt, has verified the password
  -- against the record that is stored when its transaction commits. It hands out its own fresh token
  -- and leaves at most 64 sessions. From then on a token is good exactly if it is good without the
  -- login, or if it has the hash of the fresh token and the time of the new session has not run out.
  pub login-IsEntry :
      (password : Text) (f : Fresh) (observed current : AuthState) (f' : Fresh)
      (observed' current' : AuthState) (c : AuthState) (t : String)
      → login hash_token derive password f observed current f' observed' current' ≡ entered c t
      → IsEntry password f current c t ⊎ IsEntry password f' current' c t
  unfolding login
  login-IsEntry password f observed current f' observed' current' c t e =
      elim (after_race-cases (login_attempt hash_token derive password f observed current)
        (login_attempt hash_token derive password f' observed' current') c t e) [
          | inl one ↦ inl (login_attempt-IsEntry password f observed current c t one)
          | inr two ↦ inr (login_attempt-IsEntry password f' observed' current' c t two)
        ]
