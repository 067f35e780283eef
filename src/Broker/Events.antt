-- ===== src/Broker/Events.antt =====
-- The calls and timers that change a broker of src/agent-broker.ts, one step for each, with the
-- time at which it happens.
use birdbox.Prelude.{ℕ, String, Bool, List, [], ◌∷◌}
use birdbox.Broker.Credentials.{issue_token, revoke, register, heartbeat}
use birdbox.Broker.Dispatch.{Request, dispatch, task_timeout, result}
use birdbox.Broker.Poll.{poll, give_up}
use birdbox.Broker.Queue.{requeue}
use birdbox.Broker.State.{AgentTask, AgentTaskResult, AgentRegistration, Broker, after, after_poll}

pub data Event : Type 0 where
  issues : String → String → Bool → Event
  revokes : String → Event
  registers : AgentRegistration → Event
  beats : String → String → Event
  polls : String → String → Bool → ℕ → Event
  gives_up : String → ℕ → Event
  requeues : AgentTask → Event
  dispatches : Request → String → Event
  times_out : AgentTask → Event
  answers : AgentTaskResult → String → Event

module _ (hash_token : String → String) where
  unfoldable pub step : Broker → ℕ × Event → Broker
  step b (now, issues node token preserve) = issue_token hash_token node token now preserve b
  step b (now, revokes node) = revoke node now b
  step b (now, registers input) = after b (register hash_token input now b)
  step b (now, beats node token) = after b (heartbeat hash_token node token now b)
  step b (now, polls node token aborted waiter) =
      after_poll b (poll hash_token node token aborted waiter now b)
  step b (now, gives_up node waiter) = give_up node waiter b
  step b (now, requeues task) = requeue task b
  step b (now, dispatches r task_id) = (dispatch r task_id now b).0
  step b (now, times_out task) = task_timeout task b
  step b (now, answers input token) = after b (result hash_token input token b)

  unfoldable pub run : Broker → List (ℕ × Event) → Broker
  run b [] = b
  run b (e ∷ es) = run (step b e) es
