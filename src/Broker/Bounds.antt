-- ===== src/Broker/Bounds.antt =====
-- How many tasks of one node the broker of src/agent-broker.ts keeps pending.
use native.Mathlib.Nat.{le_trans}
use birdbox.Prelude.{
  ℕ, ◌+◌, ◌≤◌, ◌<◌, ◌≡◌, String, Bool, true, false, ◌&&◌, List, [], ◌∷◌, arith, str_eq, eq_iff, leb,
  if◌then◌else◌, count, Option-cases, Bool-cases, inl, inr,
}
use birdbox.Prelude.Dict
use birdbox.Prelude.Dict.{Dict}
use birdbox.Prelude.Text.{Text}
use birdbox.Broker.Dispatch.{
  Request, precheck, dispatch, admit, make_room, place_task, place_task-pending, new_task,
  settle_result, result, result_cases, for_node, background_for_node, pending_for_node,
  background_pending,
}
use birdbox.Broker.Events.{Event, run, step, dispatches}
use birdbox.Broker.Queue.{resolve_dropped_task, prune_queue}
use birdbox.Broker.Settling.{Holds, DispatchKeeps, prune_queue_keeps, make_room_keeps, step_keeps}
use birdbox.Broker.State.{AgentTask, AgentTaskResult, Broker, after, is_background_method}

-- Within the limits, for every node.
abbrev pub IsBounded : Dict AgentTask → List AgentTaskResult → Type 0
IsBounded pending _ =
    (node : String)
    → (count (for_node node) (Dict.values pending) ≤ 32)
      × (count (background_for_node node) (Dict.values pending) ≤ 8)

-- At most `n` pending tasks pass a test.
abbrev AtMost : (AgentTask → Bool) → ℕ → Dict AgentTask → List AgentTaskResult → Type 0
AtMost p n pending _ = count p (Dict.values pending) ≤ n

drop-AtMost :
    (p : AgentTask → Bool) (n : ℕ) (task : AgentTask) (code : String) (message : Text) (b : Broker)
    → Holds (AtMost p n) b
    → Holds (AtMost p n) (resolve_dropped_task task code message b)
unfolding resolve_dropped_task
drop-AtMost p n task code message b h = ground (arith, Dict.count-delete p task.task_id b.pending)

drop-IsBounded :
    (task : AgentTask) (code : String) (message : Text) (b : Broker)
    → Holds IsBounded b
    → Holds IsBounded (resolve_dropped_task task code message b)
drop-IsBounded task code message b h node = (
  drop-AtMost _ 32 task code message b (h node).0,
  drop-AtMost _ 8 task code message b (h node).1,
)

place_task-count :
    (p : AgentTask → Bool) (task : AgentTask) (b : Broker)
    → count p (Dict.values (place_task task b).pending)
      ≤ count p (Dict.values b.pending) + (if p task then 1 else 0)
place_task-count p task b =
    rw (place_task-pending task b).0 (Dict.count-set p task.task_id task b.pending)

-- A task that passes both tests of `admit` keeps the broker within the limits.
place_task-IsBounded :
    (task : AgentTask) (b : Broker)
    → pending_for_node task.node_id b < 32
    → (is_background_method task.method ≡ true → background_pending task.node_id b < 8)
    → Holds IsBounded b
    → Holds IsBounded (place_task task b)
unfolding pending_for_node background_pending
place_task-IsBounded task b room quota h node = elim (Bool-cases (str_eq task.node_id node)) [
  | inl same ↦ ground (
    arith,
    (eq_iff task.node_id node).0 same,
    h node,
    place_task-count (for_node node) task b,
    place_task-count (background_for_node node) task b,
  )
  | inr other ↦ ground (
    arith,
    h node,
    place_task-count (for_node node) task b,
    place_task-count (background_for_node node) task b,
  )
]

-- Making room keeps what the quota of background tasks leaves.
quota_left :
    (node method : String) (b : Broker)
    → (is_background_method method && leb 8 (background_pending node b)) ≡ false
    → is_background_method method ≡ true
    → background_pending node (make_room node method b) < 8
unfolding background_pending
quota_left node method b e t =
    let few : count (background_for_node node) (Dict.values b.pending) ≤ 7 = ground arith in
    let kept =
      make_room_keeps (AtMost (background_for_node node) 7)
        (drop-AtMost (background_for_node node) 7) node method b few in
    omega arith

-- What the two tests of `admit` leave is within the limits.
admit-IsBounded :
    (r : Request) (task_id : String) (now : ℕ) (b : Broker)
    → Holds IsBounded b
    → Holds IsBounded (admit r task_id now b).0
unfolding admit new_task
admit-IsBounded r task_id now b h =
    elim (Bool-cases (is_background_method r.method && leb 8 (background_pending r.node_id b))) [
      | inl full ↦ rw (full, admit) h
      | inr quota ↦
          let roomy = make_room r.node_id r.method b in
          let kept = make_room_keeps IsBounded drop-IsBounded r.node_id r.method b h in
          elim (Bool-cases (leb 32 (pending_for_node r.node_id roomy))) [
            | inl full ↦ rw (quota, full, admit) kept
            | inr room ↦
                rw (quota, room, admit)
                  (place_task-IsBounded (new_task r task_id now) roomy (ground arith)
                    (quota_left r.node_id r.method b quota) kept)
          ]
    ]

dispatch-IsBounded :
    (r : Request) (task_id : String) (now : ℕ) (b : Broker)
    → Holds IsBounded b
    → Holds IsBounded (dispatch r task_id now b).0
unfolding dispatch
dispatch-IsBounded r task_id now b h = elim (Option-cases (precheck r now b)) [
  | inl e ↦
      rw (e, dispatch)
        (admit-IsBounded r task_id now (prune_queue r.node_id now b)
          (prune_queue_keeps IsBounded drop-IsBounded r.node_id now b h))
  | inr (answer, e) ↦ rw (e, dispatch) h
]

-- A dispatch stays within the limits, whatever it answers.
dispatch_keeps : (b : Broker) (e : ℕ × Event) → DispatchKeeps IsBounded b e
dispatch_keeps b (now, dispatches r task_id) = dispatch-IsBounded r task_id now b
dispatch_keeps b (now, _) = tt

module _ (hash_token : String → String) where
  result-AtMost :
      (p : AgentTask → Bool) (n : ℕ) (input : AgentTaskResult) (token : String) (b : Broker)
      → Holds (AtMost p n) b
      → Holds (AtMost p n) (after b (result hash_token input token b))
  unfolding settle_result
  result-AtMost p n input token b h =
      result_cases hash_token (Holds (AtMost p n)) input token b h
        λ task e. le_trans (Dict.count-delete p input.task_id b.pending) h

  result-IsBounded :
      (input : AgentTaskResult) (token : String) (b : Broker)
      → Holds IsBounded b
      → Holds IsBounded (after b (result hash_token input token b))
  result-IsBounded input token b h node =
      (result-AtMost _ 32 input token b (h node).0, result-AtMost _ 8 input token b (h node).1)

  -- From a broker within the limits, no history of calls and timers brings any node above 32
  -- pending tasks, or above 8 pending background tasks.
  pub run-IsBounded :
      (b : Broker) (es : List (ℕ × Event))
      → Holds IsBounded b
      → Holds IsBounded (run hash_token b es)
  unfolding run
  run-IsBounded b [] h = h
  run-IsBounded b (e ∷ es) h =
      run-IsBounded (step hash_token b e) es
        (step_keeps IsBounded drop-IsBounded hash_token result-IsBounded b e (dispatch_keeps b e) h)
