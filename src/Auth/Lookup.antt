-- ===== src/Auth/Lookup.antt =====
-- How src/auth.ts finds the session of a token, over lists of sessions that are filtered and joined.
use birdbox.Prelude.{
  ℕ, ◌+◌, ◌≡◌, refl, String, Bool, true, false, not, ◌&&◌, ◌||◌, some, List, [], ◌∷◌, ◌++◌, arith,
  str_eq, ltb, is_some, filter, find, any, length, ◌≤◌, In, first, later, All, All-In, In-find,
  In-filter, Bool-cases, inl, inr,
}
use birdbox.Auth.State.{StoredSession, AuthState}
use birdbox.Auth.Sessions.{
  is_active, active_sessions, matches, session_for_token, is_authenticated, safe_hex_equal,
  create_session,
}
use birdbox.Auth.Changes.{Fresh, fresh_session}

module _ {ℓ} {A : Type ℓ} where
  is_some-find : (p : A → Bool) (xs : List A) → is_some (find p xs) ≡ any p xs
  is_some-find p [] = refl
  is_some-find p (x ∷ xs) = ground (arith, is_some-find p xs)

  pub any-append : (p : A → Bool) (xs ys : List A) → any p (xs ++ ys) ≡ (any p xs || any p ys)
  any-append p [] ys = refl
  any-append p (x ∷ xs) ys = ground (arith, any-append p xs ys)

  any-filter : (p q : A → Bool) (xs : List A) → any p (filter q xs) ≡ any (λ x. q x && p x) xs
  any-filter p q [] = refl
  any-filter p q (x ∷ xs) = ground (arith, any-filter p q xs)

  pub find-holds : (p : A → Bool) (xs : List A) (x : A) → find p xs ≡ some x → p x ≡ true
  find-holds p [] x e = absurd (cc e)
  find-holds p (y ∷ ys) x e = elim (Bool-cases (p y)) [
    | inl h ↦ let e' = rw h at e in same (cc e') h
    | inr h ↦ find-holds p ys x (rw h at e)
  ]
    where
      same : y ≡ x → p y ≡ true → p x ≡ true
      same e h = rw (← e) h

  pub any-In : (p : A → Bool) (xs : List A) {x : A} → In x xs → p x ≡ true → any p xs ≡ true
  any-In p [] i h = elim i [ ]
  any-In p (y ∷ ys) (first e) h = rw (← e) (ground (arith, h))
  any-In p (y ∷ ys) (later i) h = ground (arith, any-In p ys i h)

  find-nonempty : (p : A → Bool) (xs : List A) (x : A) → find p xs ≡ some x → 1 ≤ length xs
  find-nonempty p [] x e = absurd (cc e)
  find-nonempty p (y ∷ ys) x e = omega arith

module _ (hash_token : String → String) where
  abbrev pub opens : String → ℕ → StoredSession → Bool
  opens token now s = is_active now s && matches hash_token token s

  -- The token has the hash of the fresh one, whose time has not run out.
  abbrev pub is_fresh : Fresh → String → ℕ → Bool
  is_fresh f token now =
      not (str_eq token "")
      && (ltb now (f.made_at + f.session_ttl_ms)
          && safe_hex_equal (hash_token token) (hash_token f.token))

  pub opens-fresh_session :
      (f : Fresh) (token : String) (now : ℕ)
      → (not (str_eq token "") && opens token now (fresh_session hash_token f))
        ≡ is_fresh f token now
  unfolding fresh_session create_session
  opens-fresh_session f token now = refl

  pub is_authenticated_lem :
      (token : String) (now : ℕ) (state : AuthState)
      → is_authenticated hash_token token now state ≡ (
          is_some state.password && (not (str_eq token "") && any (opens token now) state.sessions))
  unfolding is_authenticated session_for_token active_sessions
  is_authenticated_lem token now state = ground (
    arith,
    is_some-find (matches hash_token token) (filter (is_active now) state.sessions),
    any-filter (matches hash_token token) (is_active now) state.sessions,
  )

  pub any-active_opens :
      (token : String) (now wait : ℕ) (ss : List StoredSession)
      → any (opens token (now + wait)) (filter (is_active now) ss)
        ≡ any (opens token (now + wait)) ss
  any-active_opens token now wait [] = refl
  any-active_opens token now wait (s ∷ ss) = ground (arith, any-active_opens token now wait ss)

  In-is_active :
      (now : ℕ) (ss : List StoredSession) {s : StoredSession}
      → In s (filter (is_active now) ss)
      → is_active now s ≡ true
  In-is_active now ss i =
      All-In (λ s. is_active now s ≡ true) (filter (is_active now) ss) (All-active ss) i
    where
      All-active :
          (ss : List StoredSession) → All (λ s. is_active now s ≡ true) (filter (is_active now) ss)
      All-active [] = tt
      All-active (s ∷ ss) = elim (Bool-cases (is_active now s)) [
        | inl e ↦ rw e (e, All-active ss)
        | inr e ↦ rw e (All-active ss)
      ]

  -- The session of a token is one of the active ones, and the token opens it.
  pub session_for_token-In :
      (token : String) (now : ℕ) (state : AuthState) (s : StoredSession)
      → session_for_token hash_token token now state ≡ some s
      → (is_some state.password ≡ true)
        × ((str_eq token "" ≡ false)
            × ((opens token now s ≡ true)
                × (In s state.sessions × (1 ≤ length (active_sessions now state)))))
  unfolding session_for_token active_sessions
  session_for_token-In token now state s e =
      elim (Bool-cases (not (is_some state.password) || str_eq token "")) [
        | inl bad ↦ absurd (let e' = rw bad at e in cc e')
        | inr good ↦ found good (rw good at e)
      ]
    where
      found :
          (not (is_some state.password) || str_eq token "") ≡ false
          → find (matches hash_token token) (filter (is_active now) state.sessions) ≡ some s
          → (is_some state.password ≡ true)
            × ((str_eq token "" ≡ false)
                × ((opens token now s ≡ true)
                    × (In s state.sessions × (1 ≤ length (filter (is_active now) state.sessions)))))
      found good here =
          let i = In-find (matches hash_token token) _ here in
          (
            ground arith,
            (
              ground arith,
              (
                rw
                    (
                      In-is_active now state.sessions i,
                      find-holds (matches hash_token token) _ s here,
                    )
                    refl,
                (
                  In-filter (is_active now) state.sessions i,
                  find-nonempty (matches hash_token token) _ s here,
                ),
              ),
            ),
          )
