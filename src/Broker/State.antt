-- ===== src/Broker/State.antt =====
-- The records of src/agent-protocol.ts and src/agent-broker.ts. A time is a number of milliseconds,
-- since the code parses every ISO text that it compares. The two logs stand for the promises and
-- the poll callbacks that the code has settled, in that order; `stored` is the list that the
-- database keeps under the key `agent_credentials`.
use birdbox.Prelude.{ℕ, ◌*◌, String, Bool, Option, List, [], ◌∷◌, str_eq, if◌then◌else◌, any}
use birdbox.Prelude.Dict.{Dict}
use birdbox.Prelude.Text.{Text}

-- `params` is what `JSON.stringify` makes of the parameters, `none` where it throws.
pub record AgentTask : Type 0 where
  pub task_id : String
  pub node_id : String
  pub method : String
  pub params : Option String
  pub created_at : ℕ
  pub deadline_at : ℕ

pub record AgentTaskResult : Type 0 where
  pub task_id : String
  pub node_id : String
  pub ok : Bool
  pub stdout : Text
  pub stderr : Text
  pub code : Option String

pub record AgentRegistration : Type 0 where
  pub node_id : String
  pub token : String
  pub agent_version : Text
  pub protocol_version : ℕ
  pub capabilities : Option (List String)
  pub platform : Option Text
  pub architecture : Option Text
  pub hostname : Option Text

pub record CredentialRecord : Type 0 where
  pub node_id : String
  pub token_hash : String
  pub additional_token_hashes : Option (List String)
  pub created_at : ℕ
  pub revoked_at : Option ℕ

pub record AgentState : Type 0 where
  pub node_id : String
  pub connected : Bool
  pub registered_at : ℕ
  pub last_seen_at : ℕ
  pub agent_version : Text
  pub protocol_version : ℕ
  pub capabilities : List String
  pub platform : Option Text
  pub architecture : Option Text
  pub hostname : Option Text

pub record Broker : Type 0 where
  pub credentials : Dict CredentialRecord
  pub stored : List CredentialRecord
  pub agents : Dict AgentState
  pub queues : Dict (List AgentTask)
  pub waiters : Dict (List ℕ)
  pub pending : Dict AgentTask
  pub settled : List AgentTaskResult
  pub woken : List (ℕ × Option AgentTask)

-- A call that throws leaves the broker as it is.
pub data Error : Type 0 where
  bad_credential bad_protocol_version : Error

pub data Result {ℓ} (A : Type ℓ) : Type ℓ where
  ok : A → Result A
  err : Error → Result A

abbrev pub after : Broker → Result Broker → Broker
after b (ok c) = c
after b (err e) = b

abbrev pub after_poll {ℓ} : {A : Type ℓ} → Broker → Result (Broker × A) → Broker
after_poll b (ok (c, _)) = c
after_poll b (err e) = b

abbrev pub agent_protocol_version : ℕ
agent_protocol_version = 1

abbrev pub agent_methods : List String
agent_methods =
    "system.info" ∷ "system.interfaces" ∷ "network.ip_rules" ∷ "network.ip_rules.inspect"
    ∷ "bird.ospf" ∷ "bird.access" ∷ "bird.inspect" ∷ "bird.validate" ∷ "bird.stage" ∷ "bird.apply"
    ∷ "bird.rollback" ∷ "bird.protocol" ∷ "bird.routes" ∷ "bird.protocol_state" ∷ "legacy.exec"
    ∷ "agent.self_upgrade" ∷ []

abbrev pub background_methods : List String
background_methods =
    "system.info" ∷ "system.interfaces" ∷ "network.ip_rules.inspect" ∷ "bird.inspect"
    ∷ "bird.protocol" ∷ "bird.routes" ∷ "bird.ospf" ∷ "bird.access" ∷ []

abbrev pub max_tasks_per_node : ℕ
max_tasks_per_node = 32

abbrev pub max_background_tasks_per_node : ℕ
max_background_tasks_per_node = 8

abbrev pub max_task_parameter_bytes : ℕ
max_task_parameter_bytes = 16 * 1024 * 1024

abbrev pub has : String → List String → Bool
has s = any (λ t. str_eq t s)

unfoldable pub is_background_method : String → Bool
is_background_method method = has method background_methods

unfoldable pub task_priority : String → ℕ
task_priority method = if is_background_method method then 10 else 0
