-- ===== src/Broker/Settling.antt =====
-- A rule for src/agent-broker.ts: but for accepting a task and taking its result, a call changes the
-- pending tasks and the settled promises only by settling dropped tasks. What one such settling
-- keeps, every other call keeps.
use birdbox.Prelude.{
  ℕ, ◌+◌, ◌-◌, String, Bool, true, false, ◌||◌, Option, none, some, List, [], ◌∷◌, if◌then◌else◌,
  is_empty, leb, Option-cases, inl, inr,
}
use birdbox.Prelude.Dict
use birdbox.Prelude.Dict.{Dict}
use birdbox.Prelude.Text.{Text, units}
use birdbox.Broker.Credentials.{
  register_cases, heartbeat_cases, issue_token, revoke, register, heartbeat, disconnect, drop_one,
  drop_pending, write_credential,
}
use birdbox.Broker.Dispatch.{dispatch, make_room, pending_for_node, task_timeout, result}
use birdbox.Broker.Events.{
  Event, step, issues, revokes, registers, beats, polls, gives_up, requeues, dispatches, times_out,
  answers,
}
use birdbox.Broker.Poll.{poll, poll_cases, add_waiter, give_up}
use birdbox.Broker.Queue.{
  expired, resolve_dropped_task, settle_expired, preempt, prune_loop, prune_queue, drop_loop,
  drop_background_tasks, take_task, shift_task, requeue, store,
}
use birdbox.Broker.State.{AgentTask, AgentTaskResult, AgentRegistration, Broker, after, after_poll}

module _ {ℓ} (P : Dict AgentTask → List AgentTaskResult → Type ℓ) where
  abbrev pub Holds : Broker → Type ℓ
  Holds b = P b.pending b.settled

  abbrev pub DispatchKeeps : Broker → ℕ × Event → Type ℓ
  DispatchKeeps b (now, dispatches r task_id) = Holds b → Holds (dispatch r task_id now b).0
  DispatchKeeps b (now, _) = Unit

module _ {ℓ} (P : Dict AgentTask → List AgentTaskResult → Type ℓ)
    (drop : (task : AgentTask) (code : String) (message : Text) (b : Broker)
      → Holds P b
      → Holds P (resolve_dropped_task task code message b)) where
  if_keeps :
      (t : Bool) (b c : Broker) → (Holds P b → Holds P c) → Holds P b → Holds P (if t then c else b)
  if_keeps true b c k h = k h
  if_keeps false b c k h = h

  prune_loop_keeps :
      (now : ℕ) (queue : List AgentTask) (b : Broker)
      → Holds P b
      → Holds P (prune_loop now queue b).1
  unfolding prune_loop settle_expired
  prune_loop_keeps now [] b h = h
  prune_loop_keeps now (task ∷ queue) b h =
      prune_loop_keeps now queue (settle_expired now task b)
        (if_keeps (expired now task) b _ (drop task _ _ b) h)

  pub prune_queue_keeps :
      (node : String) (now : ℕ) (b : Broker) → Holds P b → Holds P (prune_queue node now b)
  unfolding prune_queue
  prune_queue_keeps node now b h = elim (Option-cases (Dict.get node b.queues)) [
    | inl e ↦ rw (e, prune_queue) h
    | inr ([], e) ↦ rw (e, prune_queue) h
    | inr (t ∷ q, e) ↦ rw (e, prune_queue) (prune_loop_keeps now (t ∷ q) b h)
  ]

  drop_loop_keeps :
      (queue : List AgentTask) (left : ℕ) (b : Broker)
      → Holds P b
      → Holds P (drop_loop left queue b).1
  unfolding drop_loop preempt
  drop_loop_keeps [] left b h = h
  drop_loop_keeps (task ∷ queue) left b h =
      drop_loop_keeps queue _ (preempt _ task b) (if_keeps _ b _ (drop task _ _ b) h)

  drop_background_tasks_keeps :
      (node : String) (amount : ℕ) (b : Broker)
      → Holds P b
      → Holds P (drop_background_tasks node amount b)
  unfolding drop_background_tasks
  drop_background_tasks_keeps node amount b h = elim (Option-cases (Dict.get node b.queues)) [
    | inl e ↦ rw (e, drop_background_tasks) h
    | inr (q, e) ↦ rw (e, drop_background_tasks) (kept q (is_empty q || leb amount 0))
  ]
    where
      kept :
          (q : List AgentTask) (t : Bool)
          → Holds P (
              if t then b else record (drop_loop amount q b).1 {
                queues = store node (drop_loop amount q b).0 (drop_loop amount q b).1.queues;
              })
      kept q true = h
      kept q false = drop_loop_keeps q amount b h

  pub make_room_keeps :
      (node method : String) (b : Broker) → Holds P b → Holds P (make_room node method b)
  unfolding make_room
  make_room_keeps node method b =
      if_keeps _ b _ (drop_background_tasks_keeps node (pending_for_node node b - 32 + 1) b)

  shift_task_keeps :
      (node : String) (q : Option (List AgentTask)) (b : Broker)
      → Holds P b
      → Holds P (shift_task node q b).1
  unfolding shift_task
  shift_task_keeps node none b h = h
  shift_task_keeps node (some []) b h = h
  shift_task_keeps node (some (task ∷ rest)) b h = h

  take_task_keeps :
      (node : String) (now : ℕ) (b : Broker) → Holds P b → Holds P (take_task node now b).1
  unfolding take_task
  take_task_keeps node now b h = elim (Option-cases (Dict.get node b.queues)) [
    | inl e ↦ rw (e, take_task) h
    | inr (q, e) ↦ rw (e, take_task) (shift_task_keeps node _ _ (prune_queue_keeps node now b h))
  ]

  drop_pending_keeps :
      (node : String) (tasks : List AgentTask) (b : Broker)
      → Holds P b
      → Holds P (drop_pending node tasks b)
  unfolding drop_pending drop_one
  drop_pending_keeps node [] b h = h
  drop_pending_keeps node (task ∷ tasks) b h =
      drop_pending_keeps node tasks (drop_one node task b) (if_keeps _ b _ (drop task _ _ b) h)

  disconnect_keeps : (node : String) (b : Broker) → Holds P b → Holds P (disconnect node b)
  unfolding disconnect
  disconnect_keeps node b h = drop_pending_keeps node (Dict.values b.pending) _ h

  pub revoke_keeps :
      (node : String) (now : ℕ) (b : Broker) → Holds P b → Holds P (revoke node now b)
  unfolding revoke write_credential
  revoke_keeps node now b h = elim (Option-cases (Dict.get node b.credentials)) [
    | inl e ↦ rw (e, revoke) h
    | inr (r, e) ↦ rw (e, revoke) (disconnect_keeps node _ h)
  ]

  pub requeue_keeps : (task : AgentTask) (b : Broker) → Holds P b → Holds P (requeue task b)
  unfolding requeue
  requeue_keeps task b h = elim (Option-cases (Dict.get task.task_id b.pending)) [
    | inl e ↦ rw (e, requeue) h
    | inr (t, e) ↦ rw (e, requeue) h
  ]

  -- The timer settles its task as a dropped one is settled.
  pub task_timeout_keeps :
      (task : AgentTask) (b : Broker) → Holds P b → Holds P (task_timeout task b)
  unfolding task_timeout resolve_dropped_task
  task_timeout_keeps task b = drop task "AGENT_TIMEOUT" (units "Agent 任务超时") b

  module _ (hash_token : String → String) where
    pub issue_token_keeps :
        (node token : String) (now : ℕ) (preserve : Bool) (b : Broker)
        → Holds P b
        → Holds P (issue_token hash_token node token now preserve b)
    unfolding issue_token write_credential
    issue_token_keeps node token now true b h = h
    issue_token_keeps node token now false b h = disconnect_keeps node _ h

    pub register_keeps :
        (input : AgentRegistration) (now : ℕ) (b : Broker)
        → Holds P b
        → Holds P (after b (register hash_token input now b))
    register_keeps input now b h = register_cases hash_token (Holds P) input now b h (λ agents. h)

    pub heartbeat_keeps :
        (node token : String) (now : ℕ) (b : Broker)
        → Holds P b
        → Holds P (after b (heartbeat hash_token node token now b))
    heartbeat_keeps node token now b h =
        heartbeat_cases hash_token (Holds P) node token now b h (λ agents. h)

    pub poll_keeps :
        (node token : String) (aborted : Bool) (waiter now : ℕ) (b : Broker)
        → Holds P b
        → Holds P (after_poll b (poll hash_token node token aborted waiter now b))
    unfolding add_waiter
    poll_keeps node token aborted waiter now b h =
        poll_cases hash_token (Holds P) node token aborted waiter now b h
          (heartbeat_keeps node token now b) (take_task_keeps node now) (λ c k. k)

    -- The rule for any event: what is left to show is about `dispatch` and `result`.
    pub step_keeps :
        ((input : AgentTaskResult) (token : String) (b : Broker)
          → Holds P b
          → Holds P (after b (result hash_token input token b)))
        → (b : Broker) (e : ℕ × Event) → DispatchKeeps P b e
        → Holds P b
        → Holds P (step hash_token b e)
    unfolding step give_up
    step_keeps a b (now, issues node token preserve) d = issue_token_keeps node token now preserve b
    step_keeps a b (now, revokes node) d = revoke_keeps node now b
    step_keeps a b (now, registers input) d = register_keeps input now b
    step_keeps a b (now, beats node token) d = heartbeat_keeps node token now b
    step_keeps a b (now, polls node token aborted waiter) d =
        poll_keeps node token aborted waiter now b
    step_keeps a b (now, gives_up node waiter) d = λ h. h
    step_keeps a b (now, requeues task) d = requeue_keeps task b
    step_keeps a b (now, dispatches r task_id) d = d
    step_keeps a b (now, times_out task) d = task_timeout_keeps task b
    step_keeps a b (now, answers input token) d = a input token b
