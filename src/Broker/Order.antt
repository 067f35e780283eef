-- ===== src/Broker/Order.antt =====
-- The order of the queues of src/agent-broker.ts: operations before background reads, each kind
-- first come, first served, and no task behind its deadline.
use birdbox.Prelude.{
  insert_by, sort_by, ℕ, ◌≤◌, ◌≡◌, refl, Bool, true, false, not, ◌&&◌, List, [], ◌∷◌, ◌++◌, arith,
  leb, ltb, if◌then◌else◌, All, All-filter, filter, Bool-cases, inl, inr,
}
use birdbox.Broker.Queue.{by_priority, preempt, drop_loop}
use birdbox.Broker.State.{AgentTask, Broker, is_background_method, task_priority}

abbrev pub priority : AgentTask → ℕ
priority t = task_priority t.method

abbrev pub is_background : AgentTask → Bool
is_background t = is_background_method t.method

abbrev pub is_operation : AgentTask → Bool
is_operation t = not (is_background_method t.method)

insert_by-operation :
    (t : AgentTask) (xs : List AgentTask)
    → is_background t ≡ false
    → insert_by priority t xs ≡ t ∷ xs
unfolding insert_by task_priority
insert_by-operation t [] e = refl
insert_by-operation t (x ∷ xs) e = ground arith

insert_by-background :
    (t : AgentTask) (ops bgs : List AgentTask)
    → is_background t ≡ true
    → All (λ x. is_background x ≡ false) ops
    → All (λ x. is_background x ≡ true) bgs
    → insert_by priority t (ops ++ bgs) ≡ ops ++ t ∷ bgs
unfolding insert_by task_priority
insert_by-background t [] [] e h k = refl
insert_by-background t [] (x ∷ bgs) e h k = ground arith
insert_by-background t (x ∷ ops) bgs e (p, h) k =
    ground (arith, insert_by-background t ops bgs e h k)

All-filter_self : (p : AgentTask → Bool) (xs : List AgentTask) → All (λ x. p x ≡ true) (filter p xs)
All-filter_self p [] = tt
All-filter_self p (x ∷ xs) = ground (arith, All-filter_self p xs)

All-filter-not :
    (p : AgentTask → Bool) (xs : List AgentTask)
    → All (λ x. p x ≡ false) (filter (λ x. not (p x)) xs)
All-filter-not p [] = tt
All-filter-not p (x ∷ xs) = ground (arith, All-filter-not p xs)

-- The sort by priority puts the operations before the background reads, and keeps the order of
-- arrival among each.
pub by_priority-partition :
    (q : List AgentTask) → by_priority q ≡ filter is_operation q ++ filter is_background q
unfolding by_priority sort_by
by_priority-partition [] = refl
by_priority-partition (t ∷ q) = elim (Bool-cases (is_background t)) [
  | inl bg ↦
      rw (by_priority-partition q, bg)
        (insert_by-background t (filter is_operation q) (filter is_background q) bg
          (All-filter-not is_background q) (All-filter_self is_background q))
  | inr op ↦ rw (by_priority-partition q, op) (insert_by-operation t _ op)
]

-- Each task is followed by tasks of its own kind, or by background reads.
abbrev pub IsOrdered : List AgentTask → Type 0
IsOrdered [] = Unit
IsOrdered (t ∷ q) = All (λ x. priority t ≤ priority x) q × IsOrdered q

pub insert_by-All :
    (P : AgentTask → Type 0) (t : AgentTask) (q : List AgentTask)
    → P t
    → All P q
    → All P (insert_by priority t q)
unfolding insert_by
insert_by-All P t [] p h = (p, tt)
insert_by-All P t (x ∷ q) p h = ground (arith, insert_by-All P t q p h.1)

All-le_trans :
    (m n : ℕ) (q : List AgentTask)
    → m ≤ n
    → All (λ x. n ≤ priority x) q
    → All (λ x. m ≤ priority x) q
All-le_trans m n [] le h = tt
All-le_trans m n (x ∷ q) le h = (omega arith, All-le_trans m n q le h.1)

insert_by-IsOrdered :
    (t : AgentTask) (q : List AgentTask) → IsOrdered q → IsOrdered (insert_by priority t q)
unfolding insert_by
insert_by-IsOrdered t [] h = (tt, tt)
insert_by-IsOrdered t (x ∷ q) (h, k) = elim (Bool-cases (leb (priority t) (priority x))) [
  | inl le ↦
      let le' : priority t ≤ priority x = ground arith in
      rw le ((le', All-le_trans (priority t) (priority x) q le' h), (h, k))
  | inr gt ↦
      rw gt (
        insert_by-All (λ y. priority x ≤ priority y) t q (ground arith) h,
        insert_by-IsOrdered t q k,
      )
]

pub by_priority-IsOrdered : (q : List AgentTask) → IsOrdered (by_priority q)
unfolding by_priority sort_by
by_priority-IsOrdered [] = tt
by_priority-IsOrdered (t ∷ q) = insert_by-IsOrdered t _ (by_priority-IsOrdered q)

pub filter-IsOrdered :
    (p : AgentTask → Bool) (q : List AgentTask) → IsOrdered q → IsOrdered (filter p q)
filter-IsOrdered p [] h = tt
filter-IsOrdered p (t ∷ q) (h, k) = elim (Bool-cases (p t)) [
  | inl e ↦ rw e (All-filter _ p q h, filter-IsOrdered p q k)
  | inr e ↦ rw e (filter-IsOrdered p q k)
]

if-All :
    (P : AgentTask → Type 0) (c : Bool) (t : AgentTask) (q : List AgentTask)
    → P t
    → All P q
    → All P (if c then q else t ∷ q)
if-All P true t q p h = h
if-All P false t q p h = (p, h)

if-IsOrdered :
    (c : Bool) (t : AgentTask) (q : List AgentTask)
    → All (λ x. priority t ≤ priority x) q
    → IsOrdered q
    → IsOrdered (if c then q else t ∷ q)
if-IsOrdered true t q h k = k
if-IsOrdered false t q h k = (h, k)

pub drop_loop-All :
    (P : AgentTask → Type 0) (q : List AgentTask) (left : ℕ) (b : Broker)
    → All P q
    → All P (drop_loop left q b).0
unfolding drop_loop
drop_loop-All P [] left b h = tt
drop_loop-All P (t ∷ q) left b (p, h) =
    if-All P (ltb 0 left && is_background t) t _ p (drop_loop-All P q _ (preempt _ t b) h)

pub drop_loop-IsOrdered :
    (q : List AgentTask) (left : ℕ) (b : Broker) → IsOrdered q → IsOrdered (drop_loop left q b).0
unfolding drop_loop
drop_loop-IsOrdered [] left b h = tt
drop_loop-IsOrdered (t ∷ q) left b (h, k) =
    if-IsOrdered (ltb 0 left && is_background t) t _
      (drop_loop-All (λ x. priority t ≤ priority x) q _ (preempt _ t b) h)
      (drop_loop-IsOrdered q _ (preempt _ t b) k)
