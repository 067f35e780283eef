-- ===== src/Broker/Dispatch.antt =====
-- `dispatch` and `result` of src/agent-broker.ts. The time, and the identifier that the broker
-- makes for a new task, are arguments; a timeout that is no whole number is `none`.
use Prim.Native.String.{len}
use birdbox.Prelude.{
  ℕ, ◌+◌, ◌-◌, ◌*◌, String, Bool, false, not, ◌&&◌, ◌||◌, Option, none, some, List, [], ◌∷◌, ◌++◌,
  str_eq, ltb, leb, if◌then◌else◌, or_else, is_empty, count, take, ◌≡◌, refl, Bool-cases,
  Option-cases, inl, inr,
}
use birdbox.Prelude.Dict
use birdbox.Prelude.Text.{Text, units}
use birdbox.Broker.Credentials.{authenticate, status, is_connected}
use birdbox.Broker.Queue.{queue_of, prune_queue, drop_background_tasks, by_priority}
use birdbox.Broker.State.{
  AgentTask, AgentTaskResult, AgentState, Broker, Result, ok, err, bad_credential, after,
  agent_methods, has, is_background_method, max_tasks_per_node, max_background_tasks_per_node,
  max_task_parameter_bytes,
}

-- An answer at once, or the identifier of the task whose result will come.
pub data Dispatched : Type 0 where
  refused : AgentTaskResult → Dispatched
  accepted : String → Dispatched

pub record Request : Type 0 where
  pub node_id : String
  pub method : String
  pub params : Option String
  pub timeout_ms : Option ℕ

unfoldable pub refusal : String → String → Text → AgentTaskResult
refusal node code message = record {
  task_id = "";
  node_id = node;
  ok = false;
  stdout = [];
  stderr = message;
  code = some code;
}

abbrev lacks_large_payload : Option AgentState → Bool
lacks_large_payload none = false
lacks_large_payload (some agent) = not (has "task.large_payload" agent.capabilities)

abbrev version_of : Option AgentState → Text
version_of none = []
version_of (some agent) = agent.agent_version

check_timeout : Request → Option AgentTaskResult
check_timeout r =
    let invalid = some (refusal r.node_id "INVALID_TIMEOUT" (units "Agent 任务超时设置不合法")) in
    elim r.timeout_ms [
      | none ↦ invalid
      | some ms ↦ if ltb ms 250 || ltb (10 * 60 * 1000) ms then invalid else none
    ]

-- The checks that come before the queue is looked at; the first that fails answers.
unfoldable pub precheck : Request → ℕ → Broker → Option AgentTaskResult
unfolding check_timeout
precheck r now b =
    if not (has r.method agent_methods)
    then some (refusal r.node_id "METHOD_NOT_ALLOWED" (units "不支持的 Agent 方法：" ++ units r.method))
    else if is_background_method r.method && not (is_connected (status r.node_id now b))
    then some (refusal r.node_id "AGENT_OFFLINE" (units "Agent 当前未连接"))
    else elim r.params [
      | none ↦ some (refusal r.node_id "INVALID_TASK" (units "Agent 任务参数不可序列化"))
      | some serialized ↦
          if ltb max_task_parameter_bytes (len serialized)
          then some (refusal r.node_id "TASK_TOO_LARGE" (units "Agent 任务参数过大"))
          else if ltb 1_900_000 (len serialized)
              && lacks_large_payload (Dict.get r.node_id b.agents)
          then some (
              refusal r.node_id "AGENT_UPGRADE_REQUIRED" (
                units "当前 Agent 版本（"
                ++ version_of (Dict.get r.node_id b.agents)
                ++ units "）无法接收超过 2 MiB 的配置，请先升级 Agent"))
          else check_timeout r
    ]

abbrev pub for_node : String → AgentTask → Bool
for_node node t = str_eq t.node_id node

abbrev pub background_for_node : String → AgentTask → Bool
background_for_node node t = str_eq t.node_id node && is_background_method t.method

unfoldable pub pending_for_node : String → Broker → ℕ
pending_for_node node b = count (for_node node) (Dict.values b.pending)

unfoldable pub background_pending : String → Broker → ℕ
background_pending node b = count (background_for_node node) (Dict.values b.pending)

-- `waiters.shift()`, and the entry that is left.
unfoldable pub hand_to : ℕ → List ℕ → AgentTask → Broker → Broker
hand_to waiter rest task b = record b {
  waiters =
      if is_empty rest
      then Dict.delete task.node_id b.waiters
      else Dict.set task.node_id rest b.waiters;
  woken = b.woken ++ (waiter, some task) ∷ [];
}

unfoldable pub enqueue : AgentTask → Broker → Broker
enqueue task b = record b {
  queues = Dict.set task.node_id (by_priority (queue_of task.node_id b ++ task ∷ [])) b.queues;
}

unfoldable pub route : List ℕ → AgentTask → Broker → Broker
route [] task b = enqueue task b
route (waiter ∷ rest) task b = hand_to waiter rest task b

-- A new task goes to the pending ones, and to the longest waiting poll or into the queue.
unfoldable pub place_task : AgentTask → Broker → Broker
place_task task b =
    route (or_else (Dict.get task.node_id b.waiters) []) task
      (record b { pending = Dict.set task.task_id task b.pending })

route_frame :
    (ws : List ℕ) (task : AgentTask) (b : Broker)
    → ((route ws task b).pending ≡ b.pending) × ((route ws task b).settled ≡ b.settled)
unfolding route enqueue hand_to
route_frame [] task b = (refl, refl)
route_frame (w ∷ rest) task b = (refl, refl)

-- Either way the task is pending, and no promise is settled.
pub place_task-pending :
    (task : AgentTask) (b : Broker)
    → ((place_task task b).pending ≡ Dict.set task.task_id task b.pending)
      × ((place_task task b).settled ≡ b.settled)
unfolding place_task
place_task-pending task b = route_frame (or_else (Dict.get task.node_id b.waiters) []) task _

-- Room is made for an operation by dropping queued background tasks.
unfoldable pub make_room : String → String → Broker → Broker
make_room node method b =
    if leb max_tasks_per_node (pending_for_node node b) && not (is_background_method method)
    then drop_background_tasks node (pending_for_node node b - max_tasks_per_node + 1) b
    else b

unfoldable pub new_task : Request → String → ℕ → AgentTask
new_task r task_id now = record {
  task_id = task_id;
  node_id = r.node_id;
  method = r.method;
  params = r.params;
  created_at = now;
  deadline_at = now + or_else r.timeout_ms 0;
}

-- The part of `dispatch` behind `#pruneQueue`.
unfoldable pub admit : Request → String → ℕ → Broker → Broker × Dispatched
admit r task_id now b =
    if is_background_method r.method
      && leb max_background_tasks_per_node (background_pending r.node_id b)
    then (b, refused (refusal r.node_id "TASK_DEDUPED" (units "后台状态查询已在队列中")))
    else let roomy = make_room r.node_id r.method b in
      if leb max_tasks_per_node (pending_for_node r.node_id roomy)
      then (roomy, refused (refusal r.node_id "TASK_QUEUE_FULL" (units "Agent 任务队列已满")))
      else (place_task (new_task r task_id now) roomy, accepted task_id)

admit_cases {ℓ} :
    (P : Broker → Type ℓ) (r : Request) (task_id : String) (now : ℕ) (b : Broker)
    → P b
    → P (make_room r.node_id r.method b)
    → P (place_task (new_task r task_id now) (make_room r.node_id r.method b))
    → P (admit r task_id now b).0
unfolding admit
admit_cases P r task_id now b h room placed =
    elim (Bool-cases (is_background_method r.method && leb 8 (background_pending r.node_id b))) [
      | inl full ↦ rw (full, admit) h
      | inr quota ↦
          elim (Bool-cases (leb 32 (pending_for_node r.node_id (make_room r.node_id r.method b)))) [
            | inl full ↦ rw (quota, full, admit) room
            | inr fits ↦ rw (quota, fits, admit) placed
          ]
    ]

unfoldable pub dispatch : Request → String → ℕ → Broker → Broker × Dispatched
dispatch r task_id now b = elim (precheck r now b) [
  | some answer ↦ (b, refused answer)
  | none ↦ admit r task_id now (prune_queue r.node_id now b)
]

-- What every part of a dispatch keeps, the dispatch keeps.
pub dispatch_cases {ℓ} :
    (P : Broker → Type ℓ) (r : Request) (task_id : String) (now : ℕ) (b : Broker)
    → P b
    → P (prune_queue r.node_id now b)
    → ((c : Broker) → P c → P (make_room r.node_id r.method c))
    → ((c : Broker) → P c → P (place_task (new_task r task_id now) c))
    → P (dispatch r task_id now b).0
unfolding dispatch
dispatch_cases P r task_id now b h pruned room place = elim (Option-cases (precheck r now b)) [
  | inl e ↦ rw (e, dispatch) (admitted (prune_queue r.node_id now b) pruned)
  | inr (answer, e) ↦ rw (e, dispatch) h
]
  where
    admitted : (c : Broker) → P c → P (admit r task_id now c).0
    admitted c k = admit_cases P r task_id now c k (room c k) (place _ (room c k))

-- The timer of a task that nobody answered.
unfoldable pub task_timeout : AgentTask → Broker → Broker
task_timeout task b = elim (Dict.get task.task_id b.pending) [
  | none ↦ b
  | some _ ↦ record b {
    pending = Dict.delete task.task_id b.pending;
    settled =
        b.settled
        ++ record {
          task_id = task.task_id;
          node_id = task.node_id;
          ok = false;
          stdout = [];
          stderr = units "Agent 任务超时";
          code = some "AGENT_TIMEOUT";
        }
          ∷ [];
  }
]

abbrev pub max_output : ℕ
max_output = 8 * 1024 * 1024

unfoldable pub settle_result : AgentTaskResult → Broker → Broker
settle_result input b = record b {
  pending = Dict.delete input.task_id b.pending;
  settled =
      b.settled
      ++ record input {
        stdout = take max_output input.stdout;
        stderr = take max_output input.stderr;
      }
        ∷ [];
}

module _ (hash_token : String → String) where
  unfoldable pub result : AgentTaskResult → String → Broker → Result Broker
  result input token b =
      if not (authenticate hash_token input.node_id token b)
      then err bad_credential
      else elim (Dict.get input.task_id b.pending) [
        | none ↦ ok b
        | some task ↦
            if not (str_eq task.node_id input.node_id) then ok b else ok (settle_result input b)
      ]

  -- A result settles its task, or changes nothing.
  pub result_cases {ℓ} :
      (P : Broker → Type ℓ) (input : AgentTaskResult) (token : String) (b : Broker)
      → P b
      → ((task : AgentTask)
          → Dict.get input.task_id b.pending ≡ some task
          → P (settle_result input b))
      → P (after b (result input token b))
  unfolding result
  result_cases P input token b h settle =
      elim (Bool-cases (not (authenticate hash_token input.node_id token b))) [
        | inl bad ↦ rw (bad, result) h
        | inr good ↦ elim (Option-cases (Dict.get input.task_id b.pending)) [
          | inl e ↦ rw (good, e, result) h
          | inr (task, e) ↦ elim (Bool-cases (not (str_eq task.node_id input.node_id))) [
            | inl other ↦ rw (good, e, other, result) h
            | inr same ↦ rw (good, e, same, result) (settle task e)
          ]
        ]
      ]
