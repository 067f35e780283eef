-- ===== src/Broker/Credentials.antt =====
-- Credentials, registration and heartbeats of src/agent-broker.ts. The hash (SHA-256 in hex) is a
-- parameter, and a fresh token, which Node draws at random, an argument. A database write that
-- fails throws before anything in memory changes.
use birdbox.Prelude.{
  ℕ, ◌-◌, String, Bool, true, false, not, ◌&&◌, ◌||◌, Option, none, some, List, [], ◌∷◌, ◌++◌,
  str_eq, ◌==◌, ltb, if◌then◌else◌, or_else, is_some, is_empty, length, filter, any, take,
  Bool-cases, Option-cases, inl, inr,
}
use birdbox.Prelude.Dict
use birdbox.Prelude.Text.{Text, units}
use birdbox.Broker.Hex.{same_hash}
use birdbox.Broker.Queue.{resolve_dropped_task}
use birdbox.Broker.State.{
  AgentTask, AgentRegistration, CredentialRecord, AgentState, Broker, Result, ok, err,
  bad_credential, bad_protocol_version, after, agent_protocol_version,
}

unfoldable pub load_into :
    Dict.Dict CredentialRecord → List CredentialRecord → Dict.Dict CredentialRecord
load_into m [] = m
load_into m (r ∷ rs) = load_into (Dict.set r.node_id r m) rs

-- `initialize`: the records that it reads from the database.
unfoldable pub initialize : Broker → Broker
initialize b = record b { credentials = load_into b.credentials b.stored }

unfoldable pub wake_all : List ℕ → List (ℕ × Option AgentTask)
wake_all [] = []
wake_all (w ∷ ws) = (w, none) ∷ wake_all ws

unfoldable pub drop_one : String → AgentTask → Broker → Broker
drop_one node task b =
    if str_eq task.node_id node
    then resolve_dropped_task task "AGENT_CREDENTIAL_CHANGED" (units "Agent 凭据已变更，请重新注册") b
    else b

-- The loop over the pending tasks in `#disconnect`.
unfoldable pub drop_pending : String → List AgentTask → Broker → Broker
drop_pending node [] b = b
drop_pending node (task ∷ tasks) b = drop_pending node tasks (drop_one node task b)

unfoldable pub disconnect : String → Broker → Broker
disconnect node b =
    let waiting = or_else (Dict.get node b.waiters) [] in
    drop_pending node (Dict.values b.pending) (record b {
      agents = Dict.delete node b.agents;
      queues = Dict.delete node b.queues;
      waiters = Dict.delete node b.waiters;
      woken = b.woken ++ wake_all waiting;
    })

-- `[...current.filter((item) => item.nodeId !== nodeId), next]` in the database, and the map.
unfoldable pub write_credential : String → CredentialRecord → Broker → Broker
write_credential node next b = record b {
  stored = filter (λ r. not (str_eq r.node_id node)) b.stored ++ next ∷ [];
  credentials = Dict.set node next b.credentials;
}

unfoldable pub has_credential : String → Broker → Bool
has_credential node b = elim (Dict.get node b.credentials) [
  | none ↦ false
  | some r ↦ not (is_some r.revoked_at)
]

unfoldable pub revoke : String → ℕ → Broker → Broker
revoke node now b = elim (Dict.get node b.credentials) [
  | none ↦ b
  | some r ↦ disconnect node (write_credential node (record r { revoked_at = some now }) b)
]

unfoldable pub status : String → ℕ → Broker → Option AgentState
status node now b = elim (Dict.get node b.agents) [
  | none ↦ none
  | some item ↦ some (record item { connected = ltb (now - item.last_seen_at) 45_000 })
]

abbrev pub is_connected : Option AgentState → Bool
is_connected none = false
is_connected (some item) = item.connected

-- `text ? text.slice(0, most) : null`
optional : ℕ → Option Text → Option Text
optional most none = none
optional most (some text) = if is_empty text then none else some (take most text)

module _ (hash_token : String → String) where
  fresh_record : String → String → ℕ → CredentialRecord
  fresh_record node token now = record {
    node_id = node;
    token_hash = hash_token token;
    additional_token_hashes = none;
    created_at = now;
    revoked_at = none;
  }

  -- The record that replaces the node's: the old one with one more hash, or a fresh one.
  unfoldable pub next_record :
      String → String → ℕ → Bool → Option CredentialRecord → CredentialRecord
  unfolding fresh_record
  next_record node token now preserve_existing none = fresh_record node token now
  next_record node token now preserve_existing (some previous) =
      if preserve_existing && not (is_some previous.revoked_at)
      then record previous {
        additional_token_hashes =
            some (or_else previous.additional_token_hashes [] ++ hash_token token ∷ []);
      }
      else fresh_record node token now

  unfoldable pub next_credential : String → String → ℕ → Bool → Broker → CredentialRecord
  next_credential node token now preserve_existing b =
      next_record node token now preserve_existing (Dict.get node b.credentials)

  unfoldable pub issue_token : String → String → ℕ → Bool → Broker → Broker
  issue_token node token now preserve_existing b =
      let written = write_credential node (next_credential node token now preserve_existing b) b in
      if preserve_existing then written else disconnect node written

  unfoldable pub rotate_token : String → String → ℕ → Broker → Broker
  rotate_token node token now b = issue_token node token now false b

  unfoldable pub accepts : CredentialRecord → String → Bool
  accepts r token =
      not (is_some r.revoked_at)
      && any (λ h. same_hash h (hash_token token))
          (r.token_hash ∷ or_else r.additional_token_hashes [])

  unfoldable pub authenticate : String → String → Broker → Bool
  authenticate node token b =
      if str_eq node "" || ltb (length (units token)) 20
      then false
      else elim (Dict.get node b.credentials) [ none ↦ false | some r ↦ accepts r token ]

  agent_state : AgentRegistration → ℕ → Option AgentState → AgentState
  unfolding optional
  agent_state input now previous = record {
    node_id = input.node_id;
    connected = true;
    registered_at = elim previous [ none ↦ now | some p ↦ p.registered_at ];
    last_seen_at = now;
    agent_version =
        take 80 (if is_empty input.agent_version then units "unknown" else input.agent_version);
    protocol_version = input.protocol_version;
    capabilities = take 100 (or_else input.capabilities []);
    platform = optional 80 input.platform;
    architecture = optional 80 input.architecture;
    hostname = optional 255 input.hostname;
  }

  unfoldable pub register : AgentRegistration → ℕ → Broker → Result Broker
  unfolding agent_state
  register input now b =
      if not (authenticate input.node_id input.token b)
      then err bad_credential
      else if not (input.protocol_version == agent_protocol_version)
      then err bad_protocol_version
      else ok (record b {
        agents =
            Dict.set input.node_id (agent_state input now (Dict.get input.node_id b.agents))
              b.agents;
      })

  unfoldable pub heartbeat : String → String → ℕ → Broker → Result Broker
  heartbeat node token now b =
      if not (authenticate node token b)
      then err bad_credential
      else ok (elim (Dict.get node b.agents) [
        | none ↦ b
        | some state ↦ record b {
          agents = Dict.set node (record state { connected = true; last_seen_at = now }) b.agents;
        }
      ])

  -- A registration and a heartbeat change the agents, or nothing.
  pub register_cases {ℓ} :
      (P : Broker → Type ℓ) (input : AgentRegistration) (now : ℕ) (b : Broker)
      → P b
      → ((agents : Dict.Dict AgentState) → P (record b { agents = agents }))
      → P (after b (register input now b))
  unfolding register
  register_cases P input now b h changed =
      elim (Bool-cases (not (authenticate input.node_id input.token b))) [
        | inl bad ↦ rw (bad, register) h
        | inr good ↦ elim (Bool-cases (not (input.protocol_version == agent_protocol_version))) [
          | inl bad ↦ rw (good, bad, register) h
          | inr fine ↦ rw (good, fine, register) (changed _)
        ]
      ]

  pub heartbeat_cases {ℓ} :
      (P : Broker → Type ℓ) (node token : String) (now : ℕ) (b : Broker)
      → P b
      → ((agents : Dict.Dict AgentState) → P (record b { agents = agents }))
      → P (after b (heartbeat node token now b))
  unfolding heartbeat
  heartbeat_cases P node token now b h changed =
      elim (Bool-cases (not (authenticate node token b))) [
        | inl bad ↦ rw (bad, heartbeat) h
        | inr good ↦ elim (Option-cases (Dict.get node b.agents)) [
          | inl e ↦ rw (good, e, heartbeat) h
          | inr (a, e) ↦ rw (good, e, heartbeat) (changed _)
        ]
      ]
