-- ===== src/Broker/Queued.antt =====
-- What each operation of src/agent-broker.ts does to the queue of a node.
use birdbox.Prelude.{
  ℕ, zero, suc, ◌≡◌, refl, ◌∙◌, ap, leb, String, Bool, true, false, not, some, List, [], ◌∷◌, arith,
  str_eq, eq_iff, if◌then◌else◌, or_else, filter, Option-cases, Bool-cases, inl, inr,
}
use birdbox.Prelude.Dict
use birdbox.Prelude.Dict.{Dict}
use birdbox.Prelude.Text.{Text}
use birdbox.Broker.Credentials.{drop_one, drop_pending}
use birdbox.Broker.Queue.{
  store, expired, resolve_dropped_task, settle_expired, preempt, prune_loop, prune_queue, queue_of,
  drop_loop, drop_background_tasks,
}
use birdbox.Broker.State.{AgentTask, Broker}

abbrev pub queue_in : String → Dict (List AgentTask) → List AgentTask
queue_in node m = or_else (Dict.get node m) []

pub queue_in-set :
    (k j : String) (q : List AgentTask) (m : Dict (List AgentTask))
    → queue_in j (Dict.set k q m) ≡ (if str_eq k j then q else queue_in j m)
queue_in-set k j q m = ground (arith, Dict.get-set k j q m)

pub queue_in-delete :
    (k j : String) (m : Dict (List AgentTask))
    → queue_in j (Dict.delete k m) ≡ (if str_eq k j then [] else queue_in j m)
queue_in-delete k j m = ground (arith, Dict.get-delete k j m)

pub queue_in-store :
    (k j : String) (q : List AgentTask) (m : Dict (List AgentTask))
    → queue_in j (store k q m) ≡ (if str_eq k j then q else queue_in j m)
unfolding store
queue_in-store k j [] m = queue_in-delete k j m
queue_in-store k j (t ∷ q) m = queue_in-set k j (t ∷ q) m

-- Settling a task leaves the queues alone.
resolve_dropped_task-queues :
    (task : AgentTask) (code : String) (message : Text) (b : Broker)
    → (resolve_dropped_task task code message b).queues ≡ b.queues
unfolding resolve_dropped_task
resolve_dropped_task-queues task code message b = ground arith

if-queues : (t : Bool) (b c : Broker) → c.queues ≡ b.queues → (if t then c else b).queues ≡ b.queues
if-queues true b c e = e
if-queues false b c e = refl

pub prune_loop-queues :
    (now : ℕ) (q : List AgentTask) (b : Broker) → (prune_loop now q b).1.queues ≡ b.queues
unfolding prune_loop settle_expired
prune_loop-queues now [] b = refl
prune_loop-queues now (t ∷ q) b =
    prune_loop-queues now q (settle_expired now t b)
    ∙ if-queues (expired now t) b _ (resolve_dropped_task-queues t _ _ b)

pub drop_loop-queues :
    (q : List AgentTask) (left : ℕ) (b : Broker) → (drop_loop left q b).1.queues ≡ b.queues
unfolding drop_loop preempt
drop_loop-queues [] left b = refl
drop_loop-queues (t ∷ q) left b =
    drop_loop-queues q _ (preempt _ t b) ∙ if-queues _ b _ (resolve_dropped_task-queues t _ _ b)

pub drop_pending-queues :
    (node : String) (ts : List AgentTask) (b : Broker) → (drop_pending node ts b).queues ≡ b.queues
unfolding drop_pending drop_one
drop_pending-queues node [] b = refl
drop_pending-queues node (t ∷ ts) b =
    drop_pending-queues node ts (drop_one node t b)
    ∙ if-queues (str_eq t.node_id node) b _ (resolve_dropped_task-queues t _ _ b)

-- The loop retains the tasks whose deadline has not come, in their order.
pub prune_loop-filter :
    (now : ℕ) (q : List AgentTask) (b : Broker)
    → (prune_loop now q b).0 ≡ filter (λ t. not (expired now t)) q
unfolding prune_loop
prune_loop-filter now [] b = refl
prune_loop-filter now (t ∷ q) b = ground (arith, prune_loop-filter now q (settle_expired now t b))

-- The queue that was read is the queue of the node that was asked for.
if-queue_of :
    (node other : String) (b : Broker) (q : List AgentTask)
    → Dict.get node b.queues ≡ some q
    → (f : List AgentTask → List AgentTask)
    → (if str_eq node other then f q else queue_of other b)
      ≡ (if str_eq node other then f (queue_of other b) else queue_of other b)
if-queue_of node other b q e f = elim (Bool-cases (str_eq node other)) [
  | inl same ↦ rw (same, ← (eq_iff node other).0 same, e) refl
  | inr differs ↦ rw differs refl
]

-- After pruning, a node's queue holds just its live tasks; other queues are as they were.
pub queue_of-prune_queue :
    (node other : String) (now : ℕ) (b : Broker)
    → queue_of other (prune_queue node now b) ≡ (
        if str_eq node other
        then filter (λ t. not (expired now t)) (queue_of other b)
        else queue_of other b)
unfolding prune_queue
queue_of-prune_queue node other now b = elim (Option-cases (Dict.get node b.queues)) [
  | inl e ↦ rw (e, prune_queue) (ground (arith, eq_iff node other))
  | inr ([], e) ↦ rw (e, prune_queue) (ground (arith, eq_iff node other))
  | inr (t ∷ q, e) ↦
      rw (e, prune_queue)
        (rw (prune_loop-queues now (t ∷ q) b, prune_loop-filter now (t ∷ q) b)
          (queue_in-store node other _ b.queues
            ∙ if-queue_of node other b (t ∷ q) e (filter (λ x. not (expired now x)))))
]

drop_loop-nil : (left : ℕ) (b : Broker) → (drop_loop left [] b).0 ≡ []
unfolding drop_loop
drop_loop-nil left b = refl

drop_loop-zero : (q : List AgentTask) (b : Broker) → (drop_loop 0 q b).0 ≡ q
unfolding drop_loop preempt
drop_loop-zero [] b = refl
drop_loop-zero (t ∷ q) b = ap (◌∷◌ t) (drop_loop-zero q b)

-- Where the node's queue is empty, what takes an empty queue to itself changes nothing.
if_same :
    (node other : String) (b : Broker) (f : List AgentTask → List AgentTask)
    → queue_of node b ≡ []
    → f [] ≡ []
    → queue_of other b ≡ (if str_eq node other then f (queue_of other b) else queue_of other b)
if_same node other b f e k = elim (Bool-cases (str_eq node other)) [
  | inl same ↦ rw (same, ← (eq_iff node other).0 same, e, k) refl
  | inr differs ↦ rw differs refl
]

positive : (n : ℕ) → leb (suc n) 0 ≡ false
positive n = ground arith

-- Preempting leaves the other queues as they were, too.
pub queue_of-drop_background_tasks :
    (node other : String) (amount : ℕ) (b : Broker)
    → queue_of other (drop_background_tasks node amount b)
      ≡ (if str_eq node other then (drop_loop amount (queue_of other b) b).0 else queue_of other b)
unfolding drop_background_tasks
queue_of-drop_background_tasks node other zero b = elim (Option-cases (Dict.get node b.queues)) [
  | inl e ↦ rw (e, drop_background_tasks, drop_loop-zero (queue_of other b) b) (ground arith)
  | inr ([], e) ↦ rw (e, drop_background_tasks, drop_loop-zero (queue_of other b) b) (ground arith)
  | inr (t ∷ q, e) ↦
      rw (e, drop_background_tasks, drop_loop-zero (queue_of other b) b) (ground arith)
]
queue_of-drop_background_tasks node other (suc n) b = elim (Option-cases (Dict.get node b.queues)) [
  | inl e ↦
      rw (e, drop_background_tasks)
        (if_same node other b (λ q. (drop_loop (suc n) q b).0) (rw e) (drop_loop-nil (suc n) b))
  | inr ([], e) ↦
      rw (e, drop_background_tasks)
        (if_same node other b (λ q. (drop_loop (suc n) q b).0) (rw e) (drop_loop-nil (suc n) b))
  | inr (t ∷ q, e) ↦
      rw (e, drop_background_tasks)
        (rw (positive n, drop_loop-queues (t ∷ q) (suc n) b)
          (queue_in-store node other _ b.queues
            ∙ if-queue_of node other b (t ∷ q) e (λ q. (drop_loop (suc n) q b).0)))
]
