-- ===== src/Broker/Access.antt =====
-- Who may act for a node in src/agent-broker.ts, and what a change of credentials leaves of it.
use birdbox.Prelude.{
  ℕ, ◌≡◌, refl, ◌∙◌, String, Bool, true, false, not, ◌&&◌, ◌||◌, Option, none, some, List, [], ◌∷◌,
  ◌++◌, arith, str_eq, eq_iff, ltb, if◌then◌else◌, or_else, length, any, Bool-cases, inl, inr,
}
use birdbox.Prelude.Dict
use birdbox.Prelude.Dict.{Dict}
use birdbox.Prelude.Text.{Text, units}
use birdbox.Broker.Credentials.{
  authenticate, accepts, next_record, next_credential, write_credential, issue_token, disconnect,
  drop_pending, drop_one,
}
use birdbox.Broker.Hex.{same_hash}
use birdbox.Broker.Queue.{resolve_dropped_task}
use birdbox.Broker.State.{AgentTask, CredentialRecord, Broker}

-- Settling a task leaves the credentials alone, and so does all of `disconnect`.
resolve_dropped_task-credentials :
    (task : AgentTask) (code : String) (message : Text) (b : Broker)
    → (resolve_dropped_task task code message b).credentials ≡ b.credentials
unfolding resolve_dropped_task
resolve_dropped_task-credentials task code message b = ground arith

if-credentials :
    (t : Bool) (b c : Broker)
    → c.credentials ≡ b.credentials
    → (if t then c else b).credentials ≡ b.credentials
if-credentials true b c e = e
if-credentials false b c e = refl

drop_pending-credentials :
    (node : String) (ts : List AgentTask) (b : Broker)
    → (drop_pending node ts b).credentials ≡ b.credentials
unfolding drop_pending drop_one
drop_pending-credentials node [] b = refl
drop_pending-credentials node (t ∷ ts) b =
    drop_pending-credentials node ts (drop_one node t b)
    ∙ if-credentials (str_eq t.node_id node) b _ (resolve_dropped_task-credentials t _ _ b)

disconnect-credentials :
    (node : String) (b : Broker) → (disconnect node b).credentials ≡ b.credentials
unfolding disconnect
disconnect-credentials node b = drop_pending-credentials node (Dict.values b.pending) _

-- A name and a token that the code looks at at all.
abbrev pub is_token : String → String → Bool
is_token node token = not (str_eq node "" || ltb (length (units token)) 20)

any-append :
    (p : String → Bool) (xs : List String) (y : String) → any p (xs ++ y ∷ []) ≡ (any p xs || p y)
any-append p [] y = ground arith
any-append p (x ∷ xs) y = ground (arith, any-append p xs y)

absorb : (t s p a : Bool) → (t && (s || (p && a))) ≡ (t && (s || (p && (t && a))))
absorb t s p a = ground arith

module _ (hash_token : String → String) where
  accepts_in : String → Option CredentialRecord → Bool
  accepts_in token none = false
  accepts_in token (some r) = accepts hash_token r token

  authenticate_lem :
      (node token : String) (b : Broker)
      → authenticate hash_token node token b
        ≡ (is_token node token && accepts_in token (Dict.get node b.credentials))
  unfolding authenticate accepts_in
  authenticate_lem node token b = ground arith

  -- The record that is written accepts the new token, and with `preserve` what was accepted before.
  accepts-next_record :
      (node token fresh : String) (now : ℕ) (preserve : Bool) (o : Option CredentialRecord)
      → accepts hash_token (next_record hash_token node fresh now preserve o) token
        ≡ (same_hash (hash_token fresh) (hash_token token) || (preserve && accepts_in token o))
  unfolding accepts next_record accepts_in
  accepts-next_record node token fresh now preserve none = ground arith
  accepts-next_record node token fresh now preserve (some r) = ground (
    arith,
    any-append (λ h. same_hash h (hash_token token)) (or_else r.additional_token_hashes [])
        (hash_token fresh),
  )

  issue_token-credentials :
      (node fresh : String) (now : ℕ) (preserve : Bool) (b : Broker)
      → (issue_token hash_token node fresh now preserve b).credentials
        ≡ Dict.set node (next_credential hash_token node fresh now preserve b) b.credentials
  unfolding issue_token write_credential
  issue_token-credentials node fresh now true b = refl
  issue_token-credentials node fresh now false b = disconnect-credentials node _

  -- Once a token is issued for a node, the node is authenticated by exactly that token, and with
  -- `preserveExisting` by those that were good before; other nodes' credentials are as they were.
  pub authenticate-issue_token :
      (node other token fresh : String) (now : ℕ) (preserve : Bool) (b : Broker)
      → authenticate hash_token other token (issue_token hash_token node fresh now preserve b) ≡ (
          if str_eq node other
          then is_token other token
            && (same_hash (hash_token fresh) (hash_token token)
                || (preserve && authenticate hash_token other token b))
          else authenticate hash_token other token b)
  authenticate-issue_token node other token fresh now preserve b =
      elim (Bool-cases (str_eq node other)) [
        | inl same ↦
            let here = (eq_iff node other).0 same in
            rw
              (
                authenticate_lem other token (issue_token hash_token node fresh now preserve b),
                authenticate_lem other token b,
                issue_token-credentials node fresh now preserve b,
                Dict.get-set node other (next_credential hash_token node fresh now preserve b)
                    b.credentials,
                same,
              )
              (accepted_here here)
        | inr differs ↦
            rw
              (
                authenticate_lem other token (issue_token hash_token node fresh now preserve b),
                authenticate_lem other token b,
                issue_token-credentials node fresh now preserve b,
                Dict.get-set node other (next_credential hash_token node fresh now preserve b)
                    b.credentials,
                differs,
              )
              refl
      ]
    where
      accepted_here :
          node ≡ other
          → (is_token other token
              && accepts_in token (some (next_credential hash_token node fresh now preserve b)))
            ≡ (is_token other token
                && (same_hash (hash_token fresh) (hash_token token)
                    || (preserve
                        && (is_token other token
                            && accepts_in token (Dict.get other b.credentials)))))
      accepted_here here = rw (← here) (
          unfold accepts_in next_credential in
          rw (accepts-next_record node token fresh now preserve (Dict.get node b.credentials))
            (absorb (is_token node token) _ preserve _))
