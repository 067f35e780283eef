-- ===== src/Broker/Disconnect.antt =====
-- What `#disconnect` of src/agent-broker.ts leaves of a node.
use birdbox.Prelude.{
  ℕ, ◌≡◌, ◌≢◌, refl, sym, ap, ◌∙◌, String, false, ◌⊎◌, none, List, [], ◌∷◌, arith, str_eq, eq_iff,
  All, All-map, All-zip, Option-cases, Bool-cases, inl, inr,
}
use birdbox.Prelude.Dict
use birdbox.Prelude.Dict.{Dict}
use birdbox.Prelude.Text.{Text}
use birdbox.Broker.Credentials.{disconnect, drop_pending, drop_one}
use birdbox.Broker.Dispatch.{
  place_task, place_task-pending, new_task, dispatch_cases, settle_result, result_cases,
}
use birdbox.Broker.Events.{Event, run, step, dispatches}
use birdbox.Broker.Queue.{resolve_dropped_task, queue_of}
use birdbox.Broker.Queued.{drop_pending-queues, queue_in-delete}
use birdbox.Broker.Settling.{Holds, DispatchKeeps, make_room_keeps, prune_queue_keeps, step_keeps}
use birdbox.Broker.State.{AgentTask, AgentTaskResult, Broker}

abbrev Entry : Type 0
Entry = String × AgentTask

-- A task is pending under its own identifier.
abbrev pub IsKeyed : Dict AgentTask → List AgentTaskResult → Type 0
IsKeyed pending _ = All (λ (e : Entry). e.1.task_id ≡ e.0) pending

delete-IsKeyed :
    (k : String) (m : Dict AgentTask)
    → All (λ (e : Entry). e.1.task_id ≡ e.0) m
    → All (λ (e : Entry). e.1.task_id ≡ e.0) (Dict.delete k m)
delete-IsKeyed k m h = All-map _ _ (λ e p. p.0) _ (Dict.delete-All _ k m h)

drop-IsKeyed :
    (task : AgentTask) (code : String) (message : Text) (b : Broker)
    → Holds IsKeyed b
    → Holds IsKeyed (resolve_dropped_task task code message b)
unfolding resolve_dropped_task
drop-IsKeyed task code message b h = elim (Option-cases (Dict.get task.task_id b.pending)) [
  | inl e ↦ rw (e, resolve_dropped_task) h
  | inr (t, e) ↦ rw (e, resolve_dropped_task) (delete-IsKeyed task.task_id b.pending h)
]

place_task-IsKeyed :
    (task : AgentTask) (b : Broker) → Holds IsKeyed b → Holds IsKeyed (place_task task b)
place_task-IsKeyed task b h =
    rw (place_task-pending task b).0 (Dict.set-All _ task.task_id task b.pending refl h)

dispatch_keeps : (b : Broker) (e : ℕ × Event) → DispatchKeeps IsKeyed b e
dispatch_keeps b (now, dispatches r task_id) = λ h.
    dispatch_cases (Holds IsKeyed) r task_id now b h
      (prune_queue_keeps IsKeyed drop-IsKeyed r.node_id now b h)
      (make_room_keeps IsKeyed drop-IsKeyed r.node_id r.method)
      (place_task-IsKeyed (new_task r task_id now))
dispatch_keeps b (now, _) = tt

-- Every call keeps it so.
step-IsKeyed :
    (hash_token : String → String) (b : Broker) (e : ℕ × Event)
    → Holds IsKeyed b
    → Holds IsKeyed (step hash_token b e)
unfolding settle_result
step-IsKeyed hash_token b e =
    step_keeps IsKeyed drop-IsKeyed hash_token
      (λ input token c h.
        result_cases hash_token (Holds IsKeyed) input token c h
          (λ t x. delete-IsKeyed input.task_id c.pending h))
      b e (dispatch_keeps b e)

pub run-IsKeyed :
    (hash_token : String → String) (b : Broker) (es : List (ℕ × Event))
    → Holds IsKeyed b
    → Holds IsKeyed (run hash_token b es)
unfolding run
run-IsKeyed hash_token b [] h = h
run-IsKeyed hash_token b (e ∷ es) h =
    run-IsKeyed hash_token (step hash_token b e) es (step-IsKeyed hash_token b e h)

In : AgentTask → List AgentTask → Type 0
In t [] = ⊥
In t (x ∷ xs) = (t ≡ x) ⊎ In t xs

-- The node's pending tasks are among those that the loop has still to visit.
abbrev Left : String → List AgentTask → Entry → Type 0
Left node ts e = (e.1.task_id ≡ e.0) × (e.1.node_id ≡ node → In e.1 ts)

-- What is left once the entry of `t` is gone, or is of another node.
left_of :
    (node : String) (t : AgentTask) (ts : List AgentTask) (e : Entry)
    → Left node (t ∷ ts) e × (e.0 ≢ t.task_id)
    → Left node ts e
unfolding In
left_of node t ts e ((keyed, l), gone) = (keyed, λ n. rest (l n))
  where
    rest : (e.1 ≡ t) ⊎ In e.1 ts → In e.1 ts
    rest (inl same) = absurd (gone (sym keyed ∙ ap (λ (x : AgentTask). x.task_id) same))
    rest (inr later) = later

other :
    (node : String) (t : AgentTask) (ts : List AgentTask)
    → str_eq t.node_id node ≡ false
    → (e : Entry) → Left node (t ∷ ts) e
    → Left node ts e
unfolding In
other node t ts differs e (keyed, l) = (keyed, λ n. rest n (l n))
  where
    rest : e.1.node_id ≡ node → (e.1 ≡ t) ⊎ In e.1 ts → In e.1 ts
    rest n (inl same) =
        absurd (cc ((eq_iff t.node_id node).1 (sym (ap (λ (x : AgentTask). x.node_id) same) ∙ n)))
    rest n (inr later) = later

drop_one-Left :
    (node : String) (t : AgentTask) (ts : List AgentTask) (b : Broker)
    → All (Left node (t ∷ ts)) b.pending
    → All (Left node ts) (drop_one node t b).pending
unfolding drop_one resolve_dropped_task In
drop_one-Left node t ts b h = elim (Bool-cases (str_eq t.node_id node)) [
  | inl same ↦ elim (Option-cases (Dict.get t.task_id b.pending)) [
    | inl e ↦
        rw (same, e, resolve_dropped_task)
          (All-map _ _ (left_of node t ts) _
            (All-zip _ _ _ h (Dict.get-none t.task_id b.pending e)))
    | inr (u, e) ↦
        rw (same, e, resolve_dropped_task)
          (All-map _ _ (left_of node t ts) _ (Dict.delete-All _ t.task_id b.pending h))
  ]
  | inr differs ↦ rw differs (All-map _ _ (other node t ts differs) _ h)
]

drop_pending-Left :
    (node : String) (ts : List AgentTask) (b : Broker)
    → All (Left node ts) b.pending
    → All (λ e. e.1.node_id ≢ node) (drop_pending node ts b).pending
unfolding drop_pending In
drop_pending-Left node [] b h = All-map _ _ (λ e l. l.1) _ h
drop_pending-Left node (t ∷ ts) b h =
    drop_pending-Left node ts (drop_one node t b) (drop_one-Left node t ts b h)

In-values :
    (m : Dict AgentTask)
    → All (λ (e : Entry). e.1.task_id ≡ e.0) m
    → All (λ (e : Entry). (e.1.task_id ≡ e.0) × In e.1 (Dict.values m)) m
unfolding Dict.values In
In-values [] h = tt
In-values ((k, t) ∷ m) (p, h) =
    ((p, inl refl), All-map _ _ (λ e q. (q.0, inr q.1)) m (In-values m h))

-- The loop touches neither the agents nor the waiters.
resolve_dropped_task-frame :
    (task : AgentTask) (code : String) (message : Text) (b : Broker)
    → ((resolve_dropped_task task code message b).agents ≡ b.agents)
      × ((resolve_dropped_task task code message b).waiters ≡ b.waiters)
unfolding resolve_dropped_task
resolve_dropped_task-frame task code message b = ground arith

drop_one-frame :
    (node : String) (t : AgentTask) (b : Broker)
    → ((drop_one node t b).agents ≡ b.agents) × ((drop_one node t b).waiters ≡ b.waiters)
unfolding drop_one
drop_one-frame node t b = elim (Bool-cases (str_eq t.node_id node)) [
  | inl same ↦ rw same (resolve_dropped_task-frame t _ _ b)
  | inr differs ↦ rw differs (refl, refl)
]

drop_pending-agents :
    (node : String) (ts : List AgentTask) (b : Broker) → (drop_pending node ts b).agents ≡ b.agents
unfolding drop_pending
drop_pending-agents node [] b = refl
drop_pending-agents node (t ∷ ts) b =
    drop_pending-agents node ts (drop_one node t b) ∙ (drop_one-frame node t b).0

drop_pending-waiters :
    (node : String) (ts : List AgentTask) (b : Broker)
    → (drop_pending node ts b).waiters ≡ b.waiters
unfolding drop_pending
drop_pending-waiters node [] b = refl
drop_pending-waiters node (t ∷ ts) b =
    drop_pending-waiters node ts (drop_one node t b) ∙ (drop_one-frame node t b).1

-- Once a node's credential is taken from it, nothing of it is left: it is not registered, nothing is
-- queued for it, no poll of it waits, and none of its tasks is pending.
pub record IsGone (node : String) (b : Broker) : Type 0 where
  pub unregistered : Dict.get node b.agents ≡ none
  pub unqueued : queue_of node b ≡ []
  pub not_waiting : Dict.get node b.waiters ≡ none
  pub not_pending : All (λ (e : Entry). e.1.node_id ≢ node) b.pending

-- `disconnect` leaves nothing of the node, if every task is pending under its own identifier.
pub disconnect-IsGone :
    (node : String) (b : Broker) → Holds IsKeyed b → IsGone node (disconnect node b)
unfolding disconnect
disconnect-IsGone node b h = record {
  unregistered =
      rw (drop_pending-agents node (Dict.values b.pending) _) (Dict.get-delete_self node b.agents);
  unqueued =
      rw (drop_pending-queues node (Dict.values b.pending) _)
        (rw (queue_in-delete node node b.queues, (eq_iff node node).1 refl) refl);
  not_waiting =
      rw (drop_pending-waiters node (Dict.values b.pending) _)
        (Dict.get-delete_self node b.waiters);
  not_pending =
      drop_pending-Left node (Dict.values b.pending) _
        (All-map _ _ (λ e q. (q.0, λ _. q.1)) b.pending (In-values b.pending h));
}
