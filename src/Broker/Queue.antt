-- ===== src/Broker/Queue.antt =====
-- The queues of src/agent-broker.ts: taking, expiring and preempting tasks.
use Prim.Native.Nat.{pred}
use birdbox.Prelude.{
  sort_by, ℕ, Bool, false, ◌&&◌, ◌||◌, String, Option, none, some, List, [], ◌∷◌, ◌++◌, leb, ltb,
  if◌then◌else◌, or_else, is_empty,
}
use birdbox.Prelude.Dict
use birdbox.Prelude.Dict.{Dict}
use birdbox.Prelude.Text.{Text, units}
use birdbox.Broker.State.{AgentTask, AgentTaskResult, Broker, is_background_method, task_priority}

-- `Array.prototype.sort` by a numeric key: it is stable.
unfoldable pub by_priority : List AgentTask → List AgentTask
by_priority = sort_by (λ t. task_priority t.method)

-- `if (list.length) map.set(key, list); else map.delete(key)`
unfoldable pub store {ℓ} : {A : Type ℓ} → String → List A → Dict (List A) → Dict (List A)
store k [] m = Dict.delete k m
store k (x ∷ xs) m = Dict.set k (x ∷ xs) m

failure : AgentTask → String → Text → AgentTaskResult
failure task code message = record {
  task_id = task.task_id;
  node_id = task.node_id;
  ok = false;
  stdout = [];
  stderr = message;
  code = some code;
}

unfoldable pub resolve_dropped_task : AgentTask → String → Text → Broker → Broker
unfolding failure
resolve_dropped_task task code message b = elim (Dict.get task.task_id b.pending) [
  | none ↦ b
  | some _ ↦ record b {
    pending = Dict.delete task.task_id b.pending;
    settled = b.settled ++ failure task code message ∷ [];
  }
]

abbrev pub expired : ℕ → AgentTask → Bool
expired now task = leb task.deadline_at now

unfoldable pub settle_expired : ℕ → AgentTask → Broker → Broker
settle_expired now task b =
    if expired now task then resolve_dropped_task task "TASK_EXPIRED" (units "Agent 任务已过期") b else b

-- The loop of `#pruneQueue`: the tasks that it retains, and the broker once the others are settled.
unfoldable pub prune_loop : ℕ → List AgentTask → Broker → List AgentTask × Broker
prune_loop now [] b = ([], b)
prune_loop now (task ∷ queue) b =
    let (retained, b') = prune_loop now queue (settle_expired now task b) in
    (if expired now task then retained else task ∷ retained, b')

abbrev pub queue_of : String → Broker → List AgentTask
queue_of node b = or_else (Dict.get node b.queues) []

unfoldable pub prune_queue : String → ℕ → Broker → Broker
prune_queue node now b = elim (Dict.get node b.queues) [
  | none ↦ b
  | some queue ↦
      let (retained, b') = prune_loop now queue b in
      if is_empty queue then b else record b' { queues = store node retained b'.queues }
]

unfoldable pub preempt : Bool → AgentTask → Broker → Broker
preempt hit task b =
    if hit then resolve_dropped_task task "TASK_PREEMPTED" (units "后台 Agent 任务已让位给高优先级操作") b else b

-- The loop of `#dropBackgroundTasks`, with the number of tasks that it may still drop.
unfoldable pub drop_loop : ℕ → List AgentTask → Broker → List AgentTask × Broker
drop_loop left [] b = ([], b)
drop_loop left (task ∷ queue) b =
    let hit = ltb 0 left && is_background_method task.method in
    let (retained, b') = drop_loop (if hit then pred left else left) queue (preempt hit task b) in
    (if hit then retained else task ∷ retained, b')

unfoldable pub drop_background_tasks : String → ℕ → Broker → Broker
drop_background_tasks node amount b = elim (Dict.get node b.queues) [
  | none ↦ b
  | some queue ↦
      let (retained, b') = drop_loop amount queue b in
      if is_empty queue || leb amount 0
      then b
      else record b' { queues = store node retained b'.queues }
]

-- `current?.shift() ?? null`, and the queue that is left.
unfoldable pub shift_task : String → Option (List AgentTask) → Broker → Option AgentTask × Broker
shift_task node none b = (none, b)
shift_task node (some []) b = (none, record b { queues = Dict.delete node b.queues })
shift_task node (some (task ∷ rest)) b = (some task, record b { queues = store node rest b.queues })

unfoldable pub take_task : String → ℕ → Broker → Option AgentTask × Broker
take_task node now b = elim (Dict.get node b.queues) [
  | none ↦ (none, b)
  | some _ ↦
      let pruned = prune_queue node now b in shift_task node (Dict.get node pruned.queues) pruned
]

unfoldable pub requeue : AgentTask → Broker → Broker
requeue task b = elim (Dict.get task.task_id b.pending) [
  | none ↦ b
  | some _ ↦ record b {
    queues = Dict.set task.node_id (by_priority (task ∷ queue_of task.node_id b)) b.queues;
  }
]
