-- ===== src/Broker/Delivery.antt =====
-- Which task a poll of src/agent-broker.ts is handed.
use birdbox.Prelude.{
  sort_by, ℕ, ◌≤◌, ◌<◌, ◌≡◌, refl, ap, String, Bool, true, not, Option, none, some, List, [], ◌∷◌,
  arith, eq_iff, or_else, filter, All, All-append, All-filter, Option-cases, inl, inr,
}
use birdbox.Prelude.Dict
use birdbox.Broker.Credentials.{authenticate, heartbeat_cases}
use birdbox.Broker.Events.{Event, run}
use birdbox.Broker.Order.{
  priority, IsOrdered, by_priority-IsOrdered, filter-IsOrdered, drop_loop-IsOrdered, drop_loop-All,
  insert_by-All,
}
use birdbox.Broker.Poll.{poll, poll-answered, answered}
use birdbox.Broker.Queue.{by_priority, expired, queue_of, prune_queue, shift_task, take_task}
use birdbox.Broker.Queued.{queue_in-store, queue_of-prune_queue}
use birdbox.Broker.QueueRule.{IsClosed, AllQueues, run_keeps, prune_queue_keeps}
use birdbox.Broker.State.{AgentTask, Broker, ok}

sort_by-All : (P : AgentTask → Type 0) (q : List AgentTask) → All P q → All P (by_priority q)
unfolding by_priority sort_by
sort_by-All P [] h = tt
sort_by-All P (t ∷ q) (p, h) = insert_by-All P t _ p (sort_by-All P q h)

-- Every task of the queue is addressed to the node.
abbrev pub IsAddressed : String → List AgentTask → Type 0
IsAddressed n q = All (λ t. t.node_id ≡ n) q

-- In order of priority, and addressed to the node.
abbrev pub IsQueue : String → List AgentTask → Type 0
IsQueue n q = IsOrdered q × IsAddressed n q

IsQueue-closed : IsClosed IsQueue
IsQueue-closed = record {
  empty = λ n. (tt, tt);
  prunes = λ n now q h. (filter-IsOrdered _ q h.0, All-filter _ _ q h.1);
  drops = λ n q left b h. (drop_loop-IsOrdered q left b h.0, drop_loop-All _ q left b h.1);
  takes = λ n t q h. (h.0.1, h.1.1);
  adds =
      λ t q h. (by_priority-IsOrdered _, sort_by-All _ _ (All-append _ q (t ∷ []) h.1 (refl, tt)));
  puts_back = λ t q h. (by_priority-IsOrdered _, sort_by-All _ (t ∷ q) (refl, h.1));
}

-- Whatever happens, every queue holds tasks for its own node alone, operations before background
-- reads.
pub run-IsQueue :
    (hash_token : String → String) (b : Broker) (es : List (ℕ × Event))
    → AllQueues IsQueue b
    → AllQueues IsQueue (run hash_token b es)
run-IsQueue = run_keeps IsQueue IsQueue-closed

-- What is true of the task that is handed out, and of the queue that it leaves.
pub record IsNext (node : String) (now : ℕ) (t : AgentTask) (left : List AgentTask) : Type 0 where
  pub addressed : t.node_id ≡ node
  pub live : now < t.deadline_at
  pub first : All (λ x. priority t ≤ priority x) left

All-live :
    (now : ℕ) (q : List AgentTask)
    → All (λ t. now < t.deadline_at) (filter (λ t. not (expired now t)) q)
All-live now [] = tt
All-live now (t ∷ q) = ground (arith, All-live now q)

-- The three predicates of a queue that hold after pruning say so of its first task.
shift_task-IsNext :
    (node : String) (now : ℕ) (o : Option (List AgentTask)) (b : Broker) (t : AgentTask)
    → Dict.get node b.queues ≡ o
    → IsQueue node (or_else o [])
    → All (λ x. now < x.deadline_at) (or_else o [])
    → (shift_task node o b).0 ≡ some t
    → IsNext node now t (queue_of node (shift_task node o b).1)
unfolding shift_task
shift_task-IsNext node now none b t e h k s = absurd (cc)
shift_task-IsNext node now (some []) b t e h k s = absurd (cc)
shift_task-IsNext node now (some (x ∷ q)) b t e h k s =
    let same : x ≡ t = ground arith in
    rw (← same) (record {
      addressed = h.1.0;
      live = k.0;
      first = rw (queue_in-store node node q b.queues, (eq_iff node node).1 refl) h.0.0;
    })

take_task-IsNext :
    (node : String) (now : ℕ) (b : Broker) (t : AgentTask)
    → AllQueues IsQueue b
    → (take_task node now b).0 ≡ some t
    → IsNext node now t (queue_of node (take_task node now b).1)
unfolding take_task
take_task-IsNext node now b t hs s = elim (Option-cases (Dict.get node b.queues)) [
  | inl e ↦ absurd (cc (rw (e, take_task) at s))
  | inr (q, e) ↦
      rw (e, take_task)
        (shift_task-IsNext node now _ (prune_queue node now b) t refl
          (prune_queue_keeps IsQueue IsQueue-closed node now b hs node) live
          (rw (e, take_task) at s))
]
  where
    live : All (λ x. now < x.deadline_at) (queue_of node (prune_queue node now b))
    live =
        rw (queue_of-prune_queue node node now b, (eq_iff node node).1 refl)
          (All-live now (queue_of node b))

module _ (hash_token : String → String) where
  -- A poll that is answered with a task at once has shown the node's credential, and the task is
  -- addressed to the node, its deadline has not come, and nothing left in the node's queue is of
  -- higher priority.
  pub poll-IsNext :
      (node token : String) (aborted : Bool) (waiter now : ℕ) (b c : Broker) (t : AgentTask)
      → AllQueues IsQueue b
      → poll hash_token node token aborted waiter now b ≡ ok (c, answered (some t))
      → (authenticate hash_token node token b ≡ true) × IsNext node now t (queue_of node c)
  poll-IsNext node token aborted waiter now b c t hs e =
      let (good, took) = poll-answered hash_token node token aborted waiter now b c t e in
      let beaten =
        heartbeat_cases hash_token (AllQueues IsQueue) node token now b hs (λ agents. hs) in
      (
        good,
        rw (ap (λ (p : Option AgentTask × Broker). p.1) took) at (
            take_task-IsNext node now _ t beaten
              (ap (λ (p : Option AgentTask × Broker). p.0) took)),
      )
