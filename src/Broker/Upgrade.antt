-- ===== src/Broker/Upgrade.antt =====
-- Agent upgrades in src/agent-broker.ts: one node at a time, or a batch in order. What a node's turn
-- meets (it is offline, its agent answers, or the dispatch throws) is an argument, with its times.
pub mod Outcome
use birdbox.Prelude.{
  ℕ, suc, ◌+◌, ◌-◌, ◌≡◌, refl, String, Bool, true, false, not, ◌&&◌, ◌||◌, Option, none, some, List,
  [], ◌∷◌, map, arith, str_eq, eq_iff, ltb, if◌then◌else◌, or_else, is_empty, length, count, All,
  Bool-cases, inl, inr,
}
use birdbox.Prelude.Text.{Text, units}
use birdbox.Broker.State.{AgentTaskResult}

pub data ItemStatus : Type 0 where
  pending running success failed skipped : ItemStatus

pub record Item : Type 0 where
  pub node_id : String
  pub status : ItemStatus
  pub started_at : Option ℕ
  pub finished_at : Option ℕ
  pub error : Option Text
  pub result : Option AgentTaskResult

pub data Met : Type 0 where
  offline : Met
  replies : AgentTaskResult → Met
  throws : Text → Met

pub record Turn : Type 0 where
  pub node_id : String
  pub started : ℕ
  pub finished : ℕ
  pub met : Met

unfoldable pub new_item : Turn → Item
new_item t = record {
  node_id = t.node_id;
  status = pending;
  started_at = none;
  finished_at = none;
  error = none;
  result = none;
}

-- `stderr || stdout || code`, and a text of its own where all are empty.
unfoldable pub detail : AgentTaskResult → Text
detail r =
    let fallback = units "Agent 升级失败" in
    if not (is_empty r.stderr)
    then r.stderr
    else if not (is_empty r.stdout)
    then r.stdout
    else elim r.code [ none ↦ fallback | some c ↦ if str_eq c "" then fallback else units c ]

unfoldable pub take_turn : Turn → Item
take_turn t = elim t.met [
  | offline ↦ record (new_item t) {
    status = skipped;
    finished_at = some t.finished;
    error = some (units "Agent 当前未连接");
  }
  | throws message ↦ record (new_item t) {
    status = failed;
    started_at = some t.started;
    finished_at = some t.finished;
    error = some message;
  }
  | replies r ↦ record (new_item t) {
    status = if r.ok then success else failed;
    started_at = some t.started;
    finished_at = some t.finished;
    error = if r.ok then none else some (detail r);
    result = some r;
  }
]

abbrev is_timeout_code : Option String → Bool
is_timeout_code none = false
is_timeout_code (some c) = str_eq c "AGENT_TIMEOUT"

-- The upgrade of this node ran into the task's timeout.
unfoldable pub timed_out : Turn → Bool
timed_out t = elim t.met [
  | offline ↦ false
  | throws message ↦ false
  | replies r ↦ not r.ok && is_timeout_code r.code
]

unfoldable pub skip_rest : ℕ → Turn → Item
skip_rest now t = record (new_item t) {
  status = skipped;
  finished_at = some now;
  error = some (units "前一节点升级超时，已暂停后续任务以避免并发下载");
}

-- The loop of `#runBatchUpgrade`: after a timeout the rest is skipped.
unfoldable pub run_batch : List Turn → List Item
run_batch [] = []
run_batch (t ∷ ts) =
    let rest = run_batch ts in
    take_turn t ∷ (if timed_out t then map (skip_rest t.finished) ts else rest)

abbrev pub has_failed : Item → Bool
has_failed i = elim i.status [ failed ↦ true | _ ↦ false ]

abbrev pub has_skipped : Item → Bool
has_skipped i = elim i.status [ skipped ↦ true | _ ↦ false ]

abbrev pub has_succeeded : Item → Bool
has_succeeded i = elim i.status [ success ↦ true | _ ↦ false ]

pub data Level : Type 0 where
  error warning success : Level

pub record Summary : Type 0 where
  pub level : Level
  pub succeeded : ℕ
  pub failed : ℕ
  pub skipped : ℕ

-- The numbers of the event at the end, where successes are what is left of the length.
unfoldable pub summarise : List Item → Summary
summarise items =
    let f = count has_failed items in
    let s = count has_skipped items in
    record {
      level = if ltb 0 f then Level.error else if ltb 0 s then Level.warning else Level.success;
      succeeded = length items - f - s;
      failed = f;
      skipped = s;
    }

pub record Upgrades : Type 0 where
  pub batch_running : Bool
  pub single_running : Bool

pub data UpgradeEvent : Type 0 where
  begin_single end_single start_batch finish_batch : UpgradeEvent

-- `beginSingleUpgrade` and `startBatchUpgrade` answer whether they begin.
unfoldable pub begin_upgrade : UpgradeEvent → Upgrades → Upgrades × Bool
begin_upgrade begin_single u =
    if u.single_running || u.batch_running
    then (u, false)
    else (record u { single_running = true }, true)
begin_upgrade start_batch u =
    if u.batch_running || u.single_running
    then (u, false)
    else (record u { batch_running = true }, true)
begin_upgrade end_single u = (record u { single_running = false }, true)
begin_upgrade finish_batch u = (record u { batch_running = false }, true)

unfoldable pub run_upgrades : Upgrades → List UpgradeEvent → Upgrades
run_upgrades u [] = u
run_upgrades u (e ∷ es) = run_upgrades (begin_upgrade e u).0 es
