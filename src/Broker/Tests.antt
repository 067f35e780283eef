-- ===== src/Broker/Tests.antt =====
-- Runs of the model of src/agent-broker.ts, and its theorems at concrete inputs.
use birdbox.Prelude.{
  insert_by, sort_by, ℕ, ◌≡◌, refl, String, true, false, none, some, List, [], ◌∷◌, arith, map,
  ◌++◌, ◌+◌, filter, take, count, drop, length, All,
}
use birdbox.Prelude.Dict
use birdbox.Prelude.Text.{units}
use birdbox.Broker.Access.{authenticate-issue_token}
use birdbox.Broker.Bounds.{IsBounded, run-IsBounded}
use birdbox.Broker.Conservation.{run-tally, tally, acceptances, AreFresh}
use birdbox.Broker.Credentials.{
  authenticate, accepts, issue_token, disconnect, write_credential, next_credential, next_record,
  drop_pending, drop_one, heartbeat, register, status,
}
use birdbox.Broker.Hex.{same_hash, from_hex, same_bytes}
use birdbox.Broker.Delivery.{run-IsQueue, IsQueue, IsNext, poll-IsNext}
use birdbox.Broker.Disconnect.{disconnect-IsGone, IsGone, run-IsKeyed}
use birdbox.Broker.Dispatch.{
  Request, dispatch, precheck, admit, background_pending, pending_for_node, make_room, place_task,
  route, enqueue, hand_to, new_task, result, settle_result, refusal,
}
use birdbox.Broker.Events.{Event, run, step, issues, dispatches, polls, answers}
use birdbox.Broker.Order.{by_priority-partition, is_operation, is_background}
use birdbox.Broker.Poll.{poll, answered, add_waiter}
use birdbox.Broker.Queue.{
  by_priority, queue_of, resolve_dropped_task, prune_queue, prune_loop, settle_expired,
  drop_background_tasks, drop_loop, preempt, store, take_task, shift_task,
}
use birdbox.Broker.QueueRule.{AllQueues}
use birdbox.Broker.Settling.{Holds}
use birdbox.Broker.State.{
  AgentTask, AgentTaskResult, Broker, ok, is_background_method, task_priority,
}
use birdbox.Broker.Upgrade.{
  Turn, begin_single, start_batch, offline, replies, has_succeeded, run_batch, run_upgrades,
  summarise,
}
use birdbox.Broker.Upgrade.Outcome.{
  summarise-run_batch, run_batch-IsUntried, IsUntried, run_upgrades-IsExclusive, IsExclusive,
}

abbrev blank : Broker
blank = record {
  credentials = [];
  stored = [];
  agents = [];
  queues = [];
  waiters = [];
  pending = [];
  settled = [];
  woken = [];
}

abbrev same_text : String → String
same_text s = s

abbrev key_a : String
key_a = "00112233445566778899aabb"

abbrev request : String → Request
request method = record {
  node_id = "a";
  method = method;
  params = some "{}";
  timeout_ms = some 1000;
}

abbrev reply : AgentTaskResult
reply = record { task_id = "t1"; node_id = "a"; ok = true; stdout = []; stderr = []; code = none }

abbrev history : List (ℕ × Event)
history =
    (1, issues "a" key_a false)
    ∷ (2, dispatches (request "bird.apply") "t1")
    ∷ (3, dispatches (request "bird.stage") "t2")
    ∷ (4, polls "a" key_a false 0)
    ∷ (5, answers reply key_a)
    ∷ []

-- What a run of the model computes with.
broker_runs : Unit {0}
unfolding step run issue_token write_credential next_credential next_record disconnect drop_pending
    drop_one resolve_dropped_task authenticate accepts heartbeat register status same_hash from_hex
    same_bytes units dispatch precheck is_background_method prune_queue prune_loop settle_expired
    admit background_pending pending_for_node make_room drop_background_tasks drop_loop preempt
    place_task route enqueue hand_to new_task by_priority sort_by insert_by task_priority store
    take_task shift_task poll add_waiter result settle_result refusal Dict.get Dict.set Dict.delete
    Dict.values
broker_runs = tt

fresh_ids : AreFresh same_text blank history
unfolding broker_runs
fresh_ids = (tt, (refl, (refl, (tt, (tt, tt)))))

-- The first task is answered, the second still pending.
history_settles :
    (map (λ r. r.task_id) (run same_text blank history).settled ≡ "t1" ∷ [])
    × (Dict.keys (run same_text blank history).pending ≡ "t2" ∷ [])
unfolding broker_runs Dict.keys
history_settles = (refl, refl)

run-tally_example :
    let c = run same_text blank history in
    tally "t1" c.pending c.settled
    ≡ tally "t1" blank.pending blank.settled + acceptances same_text "t1" blank history
run-tally_example = run-tally same_text "t1" blank history fresh_ids

blank-IsBounded : Holds IsBounded blank
unfolding Dict.values
blank-IsBounded node = (omega arith, omega arith)

run-IsBounded_example : Holds IsBounded (run same_text blank history)
run-IsBounded_example = run-IsBounded same_text blank history blank-IsBounded

blank-IsQueue : AllQueues IsQueue blank
unfolding Dict.get
blank-IsQueue n = (tt, tt)

run-IsQueue_example : AllQueues IsQueue (run same_text blank history)
run-IsQueue_example = run-IsQueue same_text blank history blank-IsQueue

abbrev queued : Broker
queued = run same_text blank (take 3 history)

abbrev first_task : AgentTask
first_task = record {
  task_id = "t1";
  node_id = "a";
  method = "bird.apply";
  params = some "{}";
  created_at = 2;
  deadline_at = 1002;
}

polled_first :
    poll same_text "a" key_a false 0 4 queued
    ≡ ok (run same_text blank (take 4 history), answered (some first_task))
unfolding broker_runs
polled_first = refl

poll-IsNext_example :
    (authenticate same_text "a" key_a queued ≡ true)
    × IsNext "a" 4 first_task (queue_of "a" (run same_text blank (take 4 history)))
poll-IsNext_example =
    poll-IsNext same_text "a" key_a false 0 4 queued _ first_task
      (run-IsQueue same_text blank (take 3 history) blank-IsQueue) polled_first

authenticate-issue_token_example :
    authenticate same_text "a" key_a (issue_token same_text "a" key_a 7 false queued) ≡ true
unfolding broker_runs
authenticate-issue_token_example =
    authenticate-issue_token same_text "a" "a" key_a key_a 7 false queued

disconnect-IsGone_example : IsGone "a" (disconnect "a" queued)
disconnect-IsGone_example =
    disconnect-IsGone "a" queued (run-IsKeyed same_text blank (take 3 history) tt)

abbrev turn : String → ℕ → Turn
turn node now = record { node_id = node; started = now; finished = now + 5; met = offline }

abbrev slow_turn : Turn
slow_turn = record (turn "b" 10) {
  met = replies (record reply { ok = false; code = some "AGENT_TIMEOUT" });
}

by_priority-partition_example :
    by_priority (first_task ∷ [])
    ≡ filter is_operation (first_task ∷ []) ++ filter is_background (first_task ∷ [])
by_priority-partition_example = by_priority-partition (first_task ∷ [])

summarise-run_batch_example :
    let s = summarise (run_batch (turn "a" 1 ∷ slow_turn ∷ turn "c" 20 ∷ [])) in
    (s.succeeded ≡ count has_succeeded (run_batch (turn "a" 1 ∷ slow_turn ∷ turn "c" 20 ∷ [])))
    × (s.succeeded + s.failed + s.skipped ≡ 3)
summarise-run_batch_example = summarise-run_batch (turn "a" 1 ∷ slow_turn ∷ turn "c" 20 ∷ [])

run_batch-IsUntried_example :
    let behind = drop 2 (run_batch (turn "a" 1 ∷ slow_turn ∷ turn "c" 20 ∷ [])) in
    All IsUntried behind × (length behind ≡ 1)
run_batch-IsUntried_example =
    run_batch-IsUntried (turn "a" 1 ∷ []) (turn "c" 20 ∷ []) slow_turn
      (record reply { ok = false; code = some "AGENT_TIMEOUT" })
      (record { met = refl; failed = refl; code = refl })

run_upgrades-IsExclusive_example : IsExclusive (
    run_upgrades
      (record { batch_running = false; single_running = false })
      (begin_single ∷ start_batch ∷ []))
run_upgrades-IsExclusive_example =
    run_upgrades-IsExclusive (record { batch_running = false; single_running = false })
      (begin_single ∷ start_batch ∷ []) refl
