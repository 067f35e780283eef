-- ===== src/Broker/QueueRule.antt =====
-- A rule for the queues of src/agent-broker.ts: what pruning, preempting, taking and sorting in keep
-- of one queue, every call keeps of all queues.
use birdbox.Prelude.{
  ℕ, ◌+◌, ◌-◌, ◌≡◌, refl, ap, String, Bool, true, false, not, ◌&&◌, Option, none, some, List, [],
  ◌∷◌, ◌++◌, str_eq, eq_iff, leb, if◌then◌else◌, or_else, filter, Option-cases, Bool-cases, inl,
  inr,
}
use birdbox.Prelude.Dict
use birdbox.Broker.Credentials.{
  register_cases, heartbeat_cases, issue_token, revoke, disconnect, write_credential,
}
use birdbox.Broker.Dispatch.{
  Request, dispatch, make_room, place_task, route, enqueue, hand_to, new_task, task_timeout,
  dispatch_cases, settle_result, result_cases, pending_for_node,
}
use birdbox.Broker.Events.{
  Event, step, run, issues, revokes, registers, beats, polls, gives_up, requeues, dispatches,
  times_out, answers,
}
use birdbox.Broker.Poll.{poll_cases, add_waiter, give_up}
use birdbox.Broker.Queue.{
  by_priority, expired, queue_of, prune_queue, drop_loop, drop_background_tasks, shift_task,
  take_task, requeue,
}
use birdbox.Broker.Queued.{
  queue_in-set, queue_in-delete, queue_in-store, queue_of-prune_queue,
  queue_of-drop_background_tasks, drop_pending-queues,
}
use birdbox.Broker.State.{AgentTask, Broker}
use birdbox.Broker.State.{is_background_method}

pub record IsClosed (Q : String → List AgentTask → Type 0) : Type 0 where
  pub empty : (n : String) → Q n []
  pub prunes :
      (n : String) (now : ℕ) (q : List AgentTask)
      → Q n q
      → Q n (filter (λ t. not (expired now t)) q)
  pub drops :
      (n : String) (q : List AgentTask) (left : ℕ) (b : Broker) → Q n q → Q n (drop_loop left q b).0
  pub takes : (n : String) (t : AgentTask) (q : List AgentTask) → Q n (t ∷ q) → Q n q
  pub adds :
      (t : AgentTask) (q : List AgentTask) → Q t.node_id q → Q t.node_id (by_priority (q ++ t ∷ []))
  pub puts_back :
      (t : AgentTask) (q : List AgentTask) → Q t.node_id q → Q t.node_id (by_priority (t ∷ q))

abbrev pub AllQueues : (String → List AgentTask → Type 0) → Broker → Type 0
AllQueues Q b = (n : String) → Q n (queue_of n b)

module _ (Q : String → List AgentTask → Type 0) (closed : IsClosed Q) where
  -- A queue is replaced, the others stay.
  replaced :
      (k n : String) (q : List AgentTask) (old new : List AgentTask)
      → new ≡ (if str_eq k n then q else old)
      → Q k q
      → Q n old
      → Q n new
  replaced k n q old new e h h' = elim (Bool-cases (str_eq k n)) [
    | inl same ↦ rw e (rw same (rw (← (eq_iff k n).0 same) h))
    | inr differs ↦ rw e (rw differs h')
  ]

  pub prune_queue_keeps :
      (node : String) (now : ℕ) (b : Broker) → AllQueues Q b → AllQueues Q (prune_queue node now b)
  prune_queue_keeps node now b h n = elim (Bool-cases (str_eq node n)) [
    | inl same ↦
        rw (queue_of-prune_queue node n now b, same) (closed.prunes n now (queue_of n b) (h n))
    | inr differs ↦ rw (queue_of-prune_queue node n now b, differs) (h n)
  ]

  make_room_keeps :
      (node method : String) (b : Broker) → AllQueues Q b → AllQueues Q (make_room node method b)
  unfolding make_room
  make_room_keeps node method b h n =
      elim (Bool-cases (leb 32 (pending_for_node node b) && not (is_background_method method))) [
        | inl full ↦ rw (full, make_room) (dropped (pending_for_node node b - 32 + 1))
        | inr room ↦ rw (room, make_room) (h n)
      ]
    where
      dropped : (amount : ℕ) → Q n (queue_of n (drop_background_tasks node amount b))
      dropped amount = elim (Bool-cases (str_eq node n)) [
        | inl same ↦
            rw (queue_of-drop_background_tasks node n amount b, same)
              (closed.drops n (queue_of n b) amount b (h n))
        | inr differs ↦ rw (queue_of-drop_background_tasks node n amount b, differs) (h n)
      ]

  set_keeps :
      (k : String) (q : List AgentTask) (b : Broker)
      → Q k q
      → AllQueues Q b
      → AllQueues Q (record b { queues = Dict.set k q b.queues })
  set_keeps k q b h hs n = replaced k n q (queue_of n b) _ (queue_in-set k n q b.queues) h (hs n)

  delete_keeps :
      (k : String) (b : Broker)
      → AllQueues Q b
      → AllQueues Q (record b { queues = Dict.delete k b.queues })
  delete_keeps k b hs n =
      replaced k n [] (queue_of n b) _ (queue_in-delete k n b.queues) (closed.empty k) (hs n)

  route_keeps :
      (ws : List ℕ) (t : AgentTask) (b : Broker) → AllQueues Q b → AllQueues Q (route ws t b)
  unfolding route enqueue hand_to
  route_keeps [] t b hs =
      set_keeps t.node_id _ b (closed.adds t (queue_of t.node_id b) (hs t.node_id)) hs
  route_keeps (w ∷ rest) t b hs = hs

  place_task_keeps : (t : AgentTask) (b : Broker) → AllQueues Q b → AllQueues Q (place_task t b)
  unfolding place_task
  place_task_keeps t b hs = route_keeps (or_else (Dict.get t.node_id b.waiters) []) t _ hs

  dispatch_keeps :
      (r : Request) (task_id : String) (now : ℕ) (b : Broker)
      → AllQueues Q b
      → AllQueues Q (dispatch r task_id now b).0
  unfolding dispatch
  dispatch_keeps r task_id now b hs =
      dispatch_cases (AllQueues Q) r task_id now b hs (prune_queue_keeps r.node_id now b hs)
        (λ c k. make_room_keeps r.node_id r.method c k)
        (λ c k. place_task_keeps (new_task r task_id now) c k)

  shift_task_keeps :
      (node : String) (q : Option (List AgentTask)) (b : Broker)
      → Dict.get node b.queues ≡ q
      → AllQueues Q b
      → AllQueues Q (shift_task node q b).1
  unfolding shift_task
  shift_task_keeps node none b e hs = hs
  shift_task_keeps node (some []) b e hs = delete_keeps node b hs
  shift_task_keeps node (some (t ∷ rest)) b e hs = λ n.
      replaced node n rest (queue_of n b) _ (queue_in-store node n rest b.queues)
        (closed.takes node t rest (rw (ap (λ o. or_else o []) e) at (hs node))) (hs n)

  take_task_keeps :
      (node : String) (now : ℕ) (b : Broker) → AllQueues Q b → AllQueues Q (take_task node now b).1
  unfolding take_task
  take_task_keeps node now b hs = elim (Option-cases (Dict.get node b.queues)) [
    | inl e ↦ rw (e, take_task) hs
    | inr (q, e) ↦
        rw (e, take_task)
          (shift_task_keeps node _ (prune_queue node now b) refl (prune_queue_keeps node now b hs))
  ]

  disconnect_keeps : (node : String) (b : Broker) → AllQueues Q b → AllQueues Q (disconnect node b)
  unfolding disconnect
  disconnect_keeps node b hs n =
      rw (drop_pending-queues node (Dict.values b.pending) _) (delete_keeps node b hs n)

  revoke_keeps :
      (node : String) (now : ℕ) (b : Broker) → AllQueues Q b → AllQueues Q (revoke node now b)
  unfolding revoke write_credential
  revoke_keeps node now b hs = elim (Option-cases (Dict.get node b.credentials)) [
    | inl e ↦ rw (e, revoke) hs
    | inr (r, e) ↦ rw (e, revoke) (disconnect_keeps node _ hs)
  ]

  requeue_keeps : (t : AgentTask) (b : Broker) → AllQueues Q b → AllQueues Q (requeue t b)
  unfolding requeue
  requeue_keeps t b hs = elim (Option-cases (Dict.get t.task_id b.pending)) [
    | inl e ↦ rw (e, requeue) hs
    | inr (s, e) ↦
        rw (e, requeue)
          (set_keeps t.node_id _ b (closed.puts_back t (queue_of t.node_id b) (hs t.node_id)) hs)
  ]

  task_timeout_keeps : (t : AgentTask) (b : Broker) → AllQueues Q b → AllQueues Q (task_timeout t b)
  unfolding task_timeout
  task_timeout_keeps t b hs = elim (Option-cases (Dict.get t.task_id b.pending)) [
    | inl e ↦ rw (e, task_timeout) hs
    | inr (s, e) ↦ rw (e, task_timeout) hs
  ]

  module _ (hash_token : String → String) where
    issue_token_keeps :
        (node token : String) (now : ℕ) (preserve : Bool) (b : Broker)
        → AllQueues Q b
        → AllQueues Q (issue_token hash_token node token now preserve b)
    unfolding issue_token write_credential
    issue_token_keeps node token now true b hs = hs
    issue_token_keeps node token now false b hs = disconnect_keeps node _ hs

    step_keeps : (b : Broker) (e : ℕ × Event) → AllQueues Q b → AllQueues Q (step hash_token b e)
    unfolding step settle_result add_waiter give_up
    step_keeps b (now, issues node token preserve) = issue_token_keeps node token now preserve b
    step_keeps b (now, revokes node) = revoke_keeps node now b
    step_keeps b (now, registers input) =
        λ hs. register_cases hash_token (AllQueues Q) input now b hs (λ agents. hs)
    step_keeps b (now, beats node token) =
        λ hs. heartbeat_cases hash_token (AllQueues Q) node token now b hs (λ agents. hs)
    step_keeps b (now, polls node token aborted waiter) = λ hs.
        poll_cases hash_token (AllQueues Q) node token aborted waiter now b hs
          (λ _. heartbeat_cases hash_token (AllQueues Q) node token now b hs (λ agents. hs))
          (take_task_keeps node now) (λ c k. k)
    step_keeps b (now, gives_up node waiter) = λ hs. hs
    step_keeps b (now, requeues task) = requeue_keeps task b
    step_keeps b (now, dispatches r task_id) = dispatch_keeps r task_id now b
    step_keeps b (now, times_out task) = task_timeout_keeps task b
    step_keeps b (now, answers input token) =
        λ hs. result_cases hash_token (AllQueues Q) input token b hs (λ t e. hs)

    pub run_keeps :
        (b : Broker) (es : List (ℕ × Event)) → AllQueues Q b → AllQueues Q (run hash_token b es)
    unfolding run
    run_keeps b [] hs = hs
    run_keeps b (e ∷ es) hs = run_keeps (step hash_token b e) es (step_keeps b e hs)
