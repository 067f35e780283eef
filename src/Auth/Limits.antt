-- ===== src/Auth/Limits.antt =====
-- The number of sessions that src/auth.ts stores, over every history of its operations.
use birdbox.Prelude.{
  ℕ, ◌≤◌, ◌≡◌, refl, String, Bool, not, Option, List, [], ◌∷◌, arith, str_eq, is_some, filter, find,
  length, Bool-cases, Option-cases, inl, inr,
}
use birdbox.Prelude.Text.{Text}
use birdbox.Auth.State.{
  StoredSession, AuthState, PasswordRecord, ScryptParameters, Outcome, changed, kept, throws,
}
use birdbox.Auth.Sessions.{is_active, active_sessions, session_for_token}
use birdbox.Auth.Password.{normalize_password}
use birdbox.Auth.Entry.{login_attempt-IsEntry}
use birdbox.Auth.Takeover.{Checked-cases, change_password-IsChange, revoke_other_sessions-IsAlone}
use birdbox.Auth.Changes.{
  Fresh, Attempt, entered, denied, raced, refused, setup, setup_in, login_attempt, change_password,
  logout, revoke_session, revoke_other_sessions,
}

-- A call, with the state that it has observed where it reads one before its transaction.
pub data Change : Type 0 where
  sets_up : Option Text → Option Text → Fresh → AuthState → Change
  logs_in : Text → Fresh → AuthState → Change
  changes : String → Text → Option Text → Option Text → Fresh → AuthState → Change
  logs_out : String → ℕ → Change
  revokes : String → String → ℕ → Change
  revokes_others : String → ℕ → Change

-- The state that a transaction leaves in the database.
abbrev pub committed : {A : Type 0} → AuthState → Outcome A → AuthState
committed old (changed new _) = new
committed old (kept _) = old
committed old (throws _) = old

abbrev pub committed_attempt : AuthState → Attempt → AuthState
committed_attempt old (entered new _) = new
committed_attempt old denied = old
committed_attempt old raced = old
committed_attempt old (refused _) = old

module _ (hash_token : String → String) (derive : Text → String → ScryptParameters → String) where
  unfoldable pub commit : AuthState → Change → AuthState
  commit s (sets_up p q f observed) = committed s (setup hash_token derive p q f observed s)
  commit s (logs_in p f observed) =
      committed_attempt s (login_attempt hash_token derive p f observed s)
  commit s (changes t old p q f observed) =
      committed s (change_password hash_token derive t old p q f observed s)
  commit s (logs_out t now) = committed s (logout hash_token t now s)
  commit s (revokes t id now) = committed s (revoke_session hash_token t id now s)
  commit s (revokes_others t now) = committed s (revoke_other_sessions hash_token t now s)

  unfoldable pub commit_all : AuthState → List Change → AuthState
  commit_all s [] = s
  commit_all s (c ∷ cs) = commit_all (commit s c) cs

length-filter-le :
    (p : StoredSession → Bool) (ss : List StoredSession) → length (filter p ss) ≤ length ss
length-filter-le p [] = omega arith
length-filter-le p (s ∷ ss) = ground (arith, length-filter-le p ss)

-- No more sessions than `n`.
abbrev pub Fits : ℕ → AuthState → Type 0
Fits n s = length s.sessions ≤ n

committed-Fits :
    {A : Type 0} (n : ℕ) (s : AuthState) (o : Outcome A)
    → ((c : AuthState) (x : A) → o ≡ changed c x → Fits n c)
    → Fits n s
    → Fits n (committed s o)
committed-Fits n s (changed c x) new h = new c x refl
committed-Fits n s (kept x) new h = h
committed-Fits n s (throws x) new h = h

committed_attempt-Fits :
    (n : ℕ) (s : AuthState) (a : Attempt)
    → ((c : AuthState) (t : String) → a ≡ entered c t → Fits n c)
    → Fits n s
    → Fits n (committed_attempt s a)
committed_attempt-Fits n s (entered c t) new h = new c t refl
committed_attempt-Fits n s denied new h = h
committed_attempt-Fits n s raced new h = h
committed_attempt-Fits n s (refused x) new h = h

setup_in-Fits :
    (hash_token : String → String) (n : ℕ) (password : PasswordRecord) (f : Fresh) (s : AuthState)
    → 64 ≤ n
    → Fits n s
    → Fits n (committed s (setup_in hash_token password f s))
unfolding setup_in
setup_in-Fits hash_token n password f s bound h = elim (Bool-cases (is_some s.password)) [
  | inl e ↦ rw e h
  | inr e ↦ rw e (omega arith)
]

module _ (hash_token : String → String) (derive : Text → String → ScryptParameters → String) where
  setup-Fits :
      (n : ℕ) (p q : Option Text) (f : Fresh) (observed s : AuthState)
      → 64 ≤ n
      → Fits n s
      → Fits n (committed s (setup hash_token derive p q f observed s))
  unfolding setup
  setup-Fits n p q f observed s bound h = elim (Bool-cases (is_some observed.password)) [
    | inl e ↦ rw e h
    | inr e ↦ elim (Checked-cases (normalize_password p q)) [
      | inl (t, is) ↦ rw (e, is) (setup_in-Fits hash_token n _ f s bound h)
      | inr (x, is) ↦ rw (e, is) h
    ]
  ]

  logout-Fits :
      (n : ℕ) (token : String) (now : ℕ) (s : AuthState)
      → Fits n s
      → Fits n (committed s (logout hash_token token now s))
  unfolding logout active_sessions
  logout-Fits n token now s h = elim (Option-cases (session_for_token hash_token token now s)) [
    | inl e ↦ rw (e, logout) h
    | inr (caller, e) ↦
        rw (e, logout)
          (omega (
            arith,
            length-filter-le (is_active now) s.sessions,
            length-filter-le (λ x. not (str_eq x.id caller.id)) (filter (is_active now) s.sessions),
          ))
  ]

  revoke_session-Fits :
      (n : ℕ) (token id : String) (now : ℕ) (s : AuthState)
      → Fits n s
      → Fits n (committed s (revoke_session hash_token token id now s))
  unfolding revoke_session active_sessions
  revoke_session-Fits n token id now s h =
      elim (Option-cases (session_for_token hash_token token now s)) [
        | inl e ↦ rw (e, revoke_session) h
        | inr (caller, e) ↦
            elim (Option-cases (find (λ x. str_eq x.id id) (filter (is_active now) s.sessions))) [
              | inl e' ↦ rw (e, e', revoke_session) h
              | inr (target, e') ↦
                  rw (e, e', revoke_session)
                    (omega (
                      arith,
                      length-filter-le (is_active now) s.sessions,
                      length-filter-le (λ x. not (str_eq x.id target.id))
                          (filter (is_active now) s.sessions),
                    ))
            ]
      ]

  commit-Fits :
      (n : ℕ) (s : AuthState) (c : Change)
      → 64 ≤ n
      → Fits n s
      → Fits n (commit hash_token derive s c)
  unfolding commit active_sessions
  commit-Fits n s (sets_up p q f observed) bound h = setup-Fits n p q f observed s bound h
  commit-Fits n s (logs_in p f observed) bound h =
      committed_attempt-Fits n s (login_attempt hash_token derive p f observed s)
        (λ c t e.
          omega (arith, bound, (login_attempt-IsEntry hash_token derive p f observed s c t e).fits))
        h
  commit-Fits n s (changes t old p q f observed) bound h =
      committed-Fits n s (change_password hash_token derive t old p q f observed s)
        (λ c x e. omega (
          arith,
          bound,
          (change_password-IsChange hash_token derive t old p q f observed s c x e).one_left,
        ))
        h
  commit-Fits n s (logs_out t now) bound h = logout-Fits n t now s h
  commit-Fits n s (revokes t id now) bound h = revoke_session-Fits n t id now s h
  commit-Fits n s (revokes_others t now) bound h =
      committed-Fits n s (revoke_other_sessions hash_token t now s)
        (λ c x e. omega (
          arith,
          h,
          length-filter-le (is_active now) s.sessions,
          (revoke_other_sessions-IsAlone hash_token t now s c x e).counted,
        ))
        h

  -- If at most `n` sessions are stored, and `n` is at least 64, then no history of calls brings more
  -- than `n`, whatever state each call has observed before its transaction.
  pub commit_all-Fits :
      (n : ℕ) (s : AuthState) (cs : List Change)
      → 64 ≤ n
      → Fits n s
      → Fits n (commit_all hash_token derive s cs)
  unfolding commit_all
  commit_all-Fits n s [] bound h = h
  commit_all-Fits n s (c ∷ cs) bound h =
      commit_all-Fits n (commit hash_token derive s c) cs bound (commit-Fits n s c bound h)
