-- ===== src/Broker/Conservation.antt =====
-- What becomes of the promises that `dispatch` of src/agent-broker.ts hands out.
use native.Mathlib.Nat.{add_assoc, add-zero}
use birdbox.Prelude.{
  ℕ, ◌+◌, ◌≡◌, refl, sym, String, Bool, false, none, some, List, [], ◌∷◌, ◌++◌, ap, ◌∙◌, arith,
  str_eq, eq_iff, leb, ◌&&◌, if◌then◌else◌, count, is_some, Option-cases, Bool-cases, inl, inr,
}
use birdbox.Prelude.Dict
use birdbox.Prelude.Dict.{Dict}
use birdbox.Prelude.Text.{Text}
use birdbox.Broker.Dispatch.{
  Request, Dispatched, refused, accepted, precheck, dispatch, admit, make_room, place_task,
  place_task-pending, new_task, settle_result, result, result_cases, pending_for_node,
  background_pending,
}
use birdbox.Broker.Events.{Event, run, step, dispatches}
use birdbox.Broker.Queue.{resolve_dropped_task, prune_queue}
use birdbox.Broker.Settling.{Holds, prune_queue_keeps, make_room_keeps, step_keeps}
use birdbox.Broker.State.{AgentTask, AgentTaskResult, Broker, after, is_background_method}

abbrev pub answers_to : String → List AgentTaskResult → ℕ
answers_to id = count (λ r. str_eq r.task_id id)

-- Whether the task is pending, as a number, and how often its promise has been settled.
abbrev pub tally : String → Dict AgentTask → List AgentTaskResult → ℕ
tally id pending settled = (if is_some (Dict.get id pending) then 1 else 0) + answers_to id settled

abbrev Tallies : String → ℕ → Dict AgentTask → List AgentTaskResult → Type 0
Tallies id n pending settled = tally id pending settled ≡ n

abbrev IsAbsent : String → Dict AgentTask → List AgentTaskResult → Type 0
IsAbsent id pending settled = Dict.get id pending ≡ none

answers_to-append :
    (id : String) (settled : List AgentTaskResult) (r : AgentTaskResult)
    → answers_to id (settled ++ r ∷ [])
      ≡ answers_to id settled + (if str_eq r.task_id id then 1 else 0)
answers_to-append id [] r = ground arith
answers_to-append id (q ∷ settled) r = ground (arith, answers_to-append id settled r)

-- To delete a pending task and settle its promise leaves every tally as it is.
settle-tally :
    (id : String) (r : AgentTaskResult) {task : AgentTask} (pending : Dict AgentTask)
    (settled : List AgentTaskResult)
    → Dict.get r.task_id pending ≡ some task
    → tally id (Dict.delete r.task_id pending) (settled ++ r ∷ []) ≡ tally id pending settled
settle-tally id r pending settled e =
    rw (answers_to-append id settled r, Dict.get-delete r.task_id id pending)
      (ground (arith, eq_iff r.task_id id))

drop-Tallies :
    (id : String) (n : ℕ) (task : AgentTask) (code : String) (message : Text) (b : Broker)
    → Holds (Tallies id n) b
    → Holds (Tallies id n) (resolve_dropped_task task code message b)
unfolding resolve_dropped_task
drop-Tallies id n task code message b h = elim (Option-cases (Dict.get task.task_id b.pending)) [
  | inl e ↦ rw (e, resolve_dropped_task) h
  | inr (t, e) ↦ rw (e, resolve_dropped_task) (settle-tally id _ b.pending b.settled e ∙ h)
]

drop-IsAbsent :
    (id : String) (task : AgentTask) (code : String) (message : Text) (b : Broker)
    → Holds (IsAbsent id) b
    → Holds (IsAbsent id) (resolve_dropped_task task code message b)
unfolding resolve_dropped_task
drop-IsAbsent id task code message b h =
    ground (arith, eq_iff task.task_id id, Dict.get-delete task.task_id id b.pending)

-- A task under a new identifier adds one to its own tally.
place_task-tally :
    (id : String) (task : AgentTask) (b : Broker)
    → Dict.get task.task_id b.pending ≡ none
    → tally id (place_task task b).pending (place_task task b).settled
      ≡ tally id b.pending b.settled + (if str_eq task.task_id id then 1 else 0)
place_task-tally id task b fresh =
    rw ((place_task-pending task b).0, (place_task-pending task b).1)
      (ground (arith, eq_iff task.task_id id, Dict.get-set task.task_id id task b.pending))

abbrev accepts_id : String → Dispatched → Bool
accepts_id id (refused answer) = false
accepts_id id (accepted task_id) = str_eq task_id id

-- Does this event accept a task of this identifier?
abbrev pub accepted_now : String → Broker → ℕ × Event → ℕ
accepted_now id b (now, dispatches r task_id) =
    if accepts_id id (dispatch r task_id now b).1 then 1 else 0
accepted_now id b (now, _) = 0

admit-tally :
    (id : String) (r : Request) (task_id : String) (now : ℕ) (b : Broker)
    → Dict.get task_id b.pending ≡ none
    → let (c, answer) = admit r task_id now b in
      tally id c.pending c.settled
      ≡ tally id b.pending b.settled + (if accepts_id id answer then 1 else 0)
unfolding admit new_task
admit-tally id r task_id now b fresh =
    elim (Bool-cases (is_background_method r.method && leb 8 (background_pending r.node_id b))) [
      | inl full ↦ rw (full, admit) (omega arith)
      | inr quota ↦
          let roomy = make_room r.node_id r.method b in
          let kept =
            make_room_keeps (Tallies id (tally id b.pending b.settled)) (drop-Tallies id _)
              r.node_id r.method b refl in
          let absent =
            make_room_keeps (IsAbsent task_id) (drop-IsAbsent task_id) r.node_id r.method b fresh in
          elim (Bool-cases (leb 32 (pending_for_node r.node_id roomy))) [
            | inl full ↦ rw (quota, full, admit) (omega (arith, kept))
            | inr room ↦
                rw (quota, room, admit)
                  (place_task-tally id (new_task r task_id now) roomy absent
                    ∙ ap (λ (n : ℕ). n + (if str_eq task_id id then 1 else 0)) kept)
          ]
    ]

dispatch-tally :
    (id : String) (r : Request) (task_id : String) (now : ℕ) (b : Broker)
    → Dict.get task_id b.pending ≡ none
    → let (c, answer) = dispatch r task_id now b in
      tally id c.pending c.settled
      ≡ tally id b.pending b.settled + (if accepts_id id answer then 1 else 0)
unfolding dispatch
dispatch-tally id r task_id now b fresh = elim (Option-cases (precheck r now b)) [
  | inl e ↦
      let pruned = prune_queue r.node_id now b in
      rw (e, dispatch)
        (admit-tally id r task_id now pruned
            (prune_queue_keeps (IsAbsent task_id) (drop-IsAbsent task_id) r.node_id now b fresh)
          ∙ ap (λ (n : ℕ). n + (if accepts_id id (admit r task_id now pruned).1 then 1 else 0))
              (prune_queue_keeps (Tallies id (tally id b.pending b.settled)) (drop-Tallies id _)
                r.node_id now b refl))
  | inr (answer, e) ↦ rw (e, dispatch) (omega arith)
]

-- The identifier that a dispatch brings is not pending.
abbrev pub IsFresh : Broker → ℕ × Event → Type 0
IsFresh b (now, dispatches r task_id) = Dict.get task_id b.pending ≡ none
IsFresh b (now, _) = Unit

module _ (hash_token : String → String) where
  result-Tallies :
      (id : String) (n : ℕ) (input : AgentTaskResult) (token : String) (b : Broker)
      → Holds (Tallies id n) b
      → Holds (Tallies id n) (after b (result hash_token input token b))
  unfolding settle_result
  result-Tallies id n input token b h =
      result_cases hash_token (Holds (Tallies id n)) input token b h
        λ task e. settle-tally id _ b.pending b.settled e ∙ h

  -- An event adds one to the tally of the task that it accepts, and nothing to any other.
  step-tally :
      (id : String) (b : Broker) (e : ℕ × Event)
      → IsFresh b e
      → let c = step hash_token b e in
        tally id c.pending c.settled ≡ tally id b.pending b.settled + accepted_now id b e
  step-tally id b (now, dispatches r task_id) fresh =
      unfold step in dispatch-tally id r task_id now b fresh
  step-tally id b (now, e) fresh =
      step_keeps (Tallies id (tally id b.pending b.settled)) (drop-Tallies id _) hash_token
        (result-Tallies id _) b (now, e) tt refl
      ∙ sym (add-zero _)

  -- How often a history accepts a task of this identifier.
  pub acceptances : String → Broker → List (ℕ × Event) → ℕ
  acceptances id b [] = 0
  acceptances id b (e ∷ es) = accepted_now id b e + acceptances id (step hash_token b e) es

  abbrev pub AreFresh : Broker → List (ℕ × Event) → Type 0
  AreFresh b [] = Unit
  AreFresh b (e ∷ es) = IsFresh b e × AreFresh (step hash_token b e) es

  -- If no history brings an identifier that is still pending, then every promise handed out is
  -- accounted for once: the task is pending, or its promise has been settled, and never both or
  -- twice.
  pub run-tally :
      (id : String) (b : Broker) (es : List (ℕ × Event))
      → AreFresh b es
      → let c = run hash_token b es in
        tally id c.pending c.settled ≡ tally id b.pending b.settled + acceptances id b es
  unfolding run acceptances
  run-tally id b [] fresh = omega arith
  run-tally id b (e ∷ es) (fresh, later) =
      run-tally id (step hash_token b e) es later
      ∙ ap (λ (n : ℕ). n + acceptances id (step hash_token b e) es) (step-tally id b e fresh)
      ∙ add_assoc _ _ _
