-- ===== src/Database/Transaction.antt =====
-- The loops of src/database.ts that try again: `mutateState` of `MySqlDatabase`, whose transaction may
-- lose to another one, and `#waitForConnection`. How each attempt ends is given.
use birdbox.Prelude.{
  ℕ, zero, suc, ◌+◌, ◌*◌, String, Bool, not, ◌||◌, Option, none, some, List, [], ◌∷◌, ◌++◌, str_eq,
  leb, if◌then◌else◌, or_else,
}
use birdbox.Prelude.Text.{Text, units}

pub record Fault : Type 0 where
  pub code : Option String
  pub sql_state : Option String
  pub message : Text

-- `unconnected`: the pool gives no connection, so that there is no transaction to try again.
pub data Attempt (A : Type 0) : Type 0 where
  commits : A → Attempt A
  breaks unconnected : Fault → Attempt A

unfoldable pub is_retryable : Fault → Bool
is_retryable f =
    str_eq (or_else f.code "") "ER_LOCK_DEADLOCK"
    || (str_eq (or_else f.code "") "ER_LOCK_WAIT_TIMEOUT"
        || str_eq (or_else f.sql_state "") "40001")

-- `exhausted` is the error that follows the loop.
pub data Ended (A : Type 0) : Type 0 where
  returned : A → Ended A
  thrown : Fault → Ended A
  exhausted : Ended A

abbrev pub max_attempts : ℕ
max_attempts = 8

-- The waits between the attempts, in milliseconds, and how the loop ends. `jitter` is random, below 20.
module _ {A : Type 0} (jitter : ℕ → ℕ) (attempts : ℕ → Attempt A) where
  unfoldable pub settled : ℕ → Fault → List ℕ × Ended A → List ℕ × Ended A
  settled n f rest =
      if not (is_retryable f) || leb max_attempts (n + 1)
      then ([], thrown f)
      else ((20 * (n + 1) + jitter n) ∷ rest.0, rest.1)

  unfoldable pub mutate_from : ℕ → ℕ → List ℕ × Ended A
  mutate_from n zero = ([], exhausted)
  mutate_from n (suc left) =
      let rest = mutate_from (suc n) left in
      elim (attempts n) [
        | commits a ↦ ([], returned a)
        | breaks f ↦ settled n f rest
        | unconnected f ↦ ([], thrown f)
      ]

  unfoldable pub mutate_state_retried : List ℕ × Ended A
  mutate_state_retried = mutate_from 0 max_attempts

-- `connect n` is the message of a failure, `none` where the connection stands.
module _ (retry_ms : ℕ) (connect : ℕ → Option Text) where
  unfoldable pub connect_from : ℕ → ℕ → Text → List ℕ × Option Text
  connect_from n zero last_error = ([], some (units "无法连接 MySQL：" ++ last_error))
  connect_from n (suc left) last_error = elim (connect n) [
    | none ↦ ([], none)
    | some message ↦
        let rest = connect_from (suc n) left message in
        (if leb 1 left then retry_ms ∷ rest.0 else rest.0, rest.1)
  ]

  unfoldable pub wait_for_connection : ℕ → List ℕ × Option Text
  wait_for_connection retries = connect_from 1 retries (units "连接失败")
