-- ===== src/Broker/Poll.antt =====
-- `poll` of src/agent-broker.ts. A poll that finds no task leaves a numbered waiter; its timer and
-- its abort signal are separate steps.
use birdbox.Prelude.{
  ℕ, ◌≡◌, inl, inr, Bool-cases, arith, String, Bool, true, not, Option, none, some, List, [], ◌∷◌,
  ◌++◌, ◌==◌, any, if◌then◌else◌, or_else,
}
use birdbox.Prelude.Dict
use birdbox.Broker.Credentials.{authenticate, heartbeat}
use birdbox.Broker.Queue.{take_task, store}
use birdbox.Broker.State.{AgentTask, Broker, Result, ok, err, bad_credential, after, after_poll}

-- What the caller of `poll` gets: an answer at once, or the number of its waiter.
pub data Polled : Type 0 where
  answered : Option AgentTask → Polled
  waits : ℕ → Polled

unfoldable pub add_waiter : String → ℕ → Broker → Broker
add_waiter node waiter b = record b {
  waiters = Dict.set node (or_else (Dict.get node b.waiters) [] ++ waiter ∷ []) b.waiters;
}

-- The first entry that is the waiter.
unfoldable pub remove_waiter : ℕ → List ℕ → List ℕ
remove_waiter waiter [] = []
remove_waiter waiter (w ∷ ws) = if w == waiter then ws else w ∷ remove_waiter waiter ws

-- The timer of a waiter, or its abort: it is removed, and if it has not been settled yet, which is
-- when it still stands in the list, it is answered with nothing.
unfoldable pub give_up : String → ℕ → Broker → Broker
give_up node waiter b =
    let current = or_else (Dict.get node b.waiters) [] in
    record b {
      waiters = store node (remove_waiter waiter current) b.waiters;
      woken = if any (λ w. w == waiter) current then b.woken ++ (waiter, none) ∷ [] else b.woken;
    }

abbrev pub deliver : String → ℕ → Option AgentTask × Broker → Broker × Polled
deliver node waiter (some task, b) = (b, answered (some task))
deliver node waiter (none, b) = (add_waiter node waiter b, waits waiter)

module _ (hash_token : String → String) where
  unfoldable pub poll : String → String → Bool → ℕ → ℕ → Broker → Result (Broker × Polled)
  poll node token aborted waiter now b =
      if not (authenticate hash_token node token b)
      then err bad_credential
      else if aborted
      then ok (b, answered none)
      else elim (heartbeat hash_token node token now b) [
        | err e ↦ err e
        | ok b' ↦ ok (deliver node waiter (take_task node now b'))
      ]

  -- What every part of a poll keeps, the poll keeps.
  pub poll_cases {ℓ} :
      (P : Broker → Type ℓ) (node token : String) (aborted : Bool) (waiter now : ℕ) (b : Broker)
      → P b
      → (P b → P (after b (heartbeat hash_token node token now b)))
      → ((c : Broker) → P c → P (take_task node now c).1)
      → ((c : Broker) → P c → P (add_waiter node waiter c))
      → P (after_poll b (poll node token aborted waiter now b))
  unfolding poll
  poll_cases P node token aborted waiter now b h beat take_one wait =
      elim (Bool-cases (not (authenticate hash_token node token b))) [
        | inl bad ↦ rw (bad, poll) h
        | inr good ↦ elim (Bool-cases aborted) [
          | inl gone ↦ rw (good, gone, poll) h
          | inr here ↦
              rw (good, here, poll) (beaten (heartbeat hash_token node token now b) (beat h))
        ]
      ]
    where
      handed : (t : Option AgentTask) (c : Broker) → P c → P (deliver node waiter (t, c)).0
      handed none c k = wait c k
      handed (some task) c k = k

      beaten :
          (r : Result Broker)
          → P (after b r)
          → P (
              after_poll b (elim r [
                | err e ↦ err e
                | ok b' ↦ ok (deliver node waiter (take_task node now b'))
              ]))
      beaten (err e) k = h
      beaten (ok c) k = handed (take_task node now c).0 (take_task node now c).1 (take_one c k)

  -- A poll that is answered with a task was authenticated, and took the task from the queue.
  pub poll-answered :
      (node token : String) (aborted : Bool) (waiter now : ℕ) (b c : Broker) (t : AgentTask)
      → poll node token aborted waiter now b ≡ ok (c, answered (some t))
      → (authenticate hash_token node token b ≡ true)
        × (let b' = after b (heartbeat hash_token node token now b) in
            take_task node now b' ≡ (some t, c))
  unfolding poll
  poll-answered node token aborted waiter now b c t e =
      elim (Bool-cases (authenticate hash_token node token b)) [
        | inl good ↦ elim (Bool-cases aborted) [
          | inl gone ↦ absurd (cc (rw (good, gone, poll) at e))
          | inr here ↦
              (good, beaten (heartbeat hash_token node token now b) (rw (good, here, poll) at e))
        ]
        | inr bad ↦ absurd (cc (rw (bad, poll) at e))
      ]
    where
      handed :
          (p : Option AgentTask × Broker)
          → ok (deliver node waiter p) ≡ ok (c, answered (some t))
          → p ≡ (some t, c)
      handed (none, d) h = absurd (cc h)
      handed (some s, d) h = ground arith

      beaten :
          (r : Result Broker)
          → (elim r [ err x ↦ err x | ok b' ↦ ok (deliver node waiter (take_task node now b')) ])
            ≡ ok (c, answered (some t))
          → take_task node now (after b r) ≡ (some t, c)
      beaten (err x) h = absurd (cc h)
      beaten (ok d) h = handed (take_task node now d) h
