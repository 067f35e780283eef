-- ===== src/Deployment/Tests.antt =====
-- Runs of the model of src/deployment-service.ts: one node, whose config is deployed, refused,
-- replayed or taken back.
use birdbox.Prelude.{
  ◌≡◌, refl, String, Bool, true, false, none, some, [], ◌∷◌, str_eq, ℕ, is_empty, ◌&&◌, ◌||◌,
}
use birdbox.Deployment.State.{
  ManagedNode, Inventory, ConfigBundle, forward, Active, ok, writes, unanswered, replied,
  plain_failure, failure_of, applies, stages, rolls_back,
}
use birdbox.Deployment.Script.{Script, Plan, World, commits, breaks}
use birdbox.Deployment.Recover.{Replay, recover, desired_of, opposite_of, targets_of}
use birdbox.Impact.{unique_node_ids, given_ids, into_set}
use birdbox.Deployment.Targets.{
  targets, targets_for, target_for, last_target, mark_removed_resources,
}
use birdbox.Deployment.Store.{replace_with}
use birdbox.Deployment.Journal.{new_journal, open_journal, mutate_journal, clear_journal}
use birdbox.Deployment.Attempt.{
  prepare, find_nodes, stage_all, stage_failure, apply_all, apply_failure, config_from,
}
use birdbox.Deployment.Undo.{roll_back_all}
use birdbox.Deployment.Service.{
  mutate_and_apply, attempt, begin_journal, deploy_draft, apply_draft, commit_draft, take_back,
  conclude,
}
use birdbox.Deployment.Replayed.{Ends, recover-Ends}
use birdbox.Deployment.Returns.{IsHealthy, recover-returns}
use birdbox.Deployment.Taken.{IsSafe}
use birdbox.Deployment.Safe.{attempt-IsSafe}
use birdbox.Deployment.Attempts.{IsOutcome, mutate_and_apply-IsOutcome}

abbrev router : ManagedNode
router = record { id = "r1"; name = []; settings = "" }

abbrev bare : String → Inventory String
bare rest = record { nodes = router ∷ []; sessions = []; rest = rest }

abbrev config : ConfigBundle
config = record { main = []; resources = []; removed_resources = [] }

abbrev same_rest : Inventory String → Inventory String → Bool
same_rest a b = false

abbrev plan : Plan String ℕ
plan = record {
  mutate = λ i. ok (bare "new", 7);
  validate = λ i. ok i;
  node_ids_for_draft = λ m i. "r1" ∷ [];
  find_node = λ i id. ok router;
  config_for_node = λ i n. config;
  empty_config_for_node = λ n. config;
  same_stored = same_rest;
  validation_error = λ a b c. c;
}

-- The database refuses the commit.
abbrev script : Script String
script = record {
  found = bare "old";
  unreadable = none;
  stage = λ n c. replied true [] [];
  journal_id = "j";
  opens = writes;
  apply = λ n c. replied true [] [];
  apply_hook = λ n. none;
  commit = breaks (plain_failure []);
  clears = writes;
  marks = writes;
  roll_back = λ n c. replied true [] [];
  rollback_hook = λ n. none;
  clears_again = writes;
}

abbrev start : World String
start = record { inventory = bare "old"; journal = none; calls = [] }

sent_commands :
    (attempt plan script true start).0.calls
    ≡ stages router config ∷ applies router config ∷ rolls_back router config ∷ []
unfolding attempt prepare find_nodes deploy_draft stage_all stage_failure begin_journal new_journal
    targets targets_for target_for last_target mark_removed_resources unique_node_ids given_ids
    into_set open_journal mutate_journal apply_draft apply_all apply_failure failure_of config_from
    commit_draft replace_with take_back roll_back_all
sent_commands = refl

attempt-IsSafe_example : IsSafe plan script (attempt plan script true start)
attempt-IsSafe_example = attempt-IsSafe plan script true start refl refl

-- The commit is made, and the answer of the write that closes the journal is lost.
abbrev lost : Script String
lost = record script { commit = commits; clears = unanswered (plain_failure []) }

lost_closed :
    ((attempt plan lost true start).0.journal ≡ none)
    × ((attempt plan lost true start).0.inventory ≡ bare "new")
unfolding sent_commands conclude clear_journal
lost_closed = (refl, refl)

abbrev plain : String → Inventory String
plain rest = record { nodes = []; sessions = []; rest = rest }

abbrev same_plain : Inventory String → Inventory String → Bool
same_plain a b =
    (is_empty a.nodes && is_empty b.nodes)
    && ((is_empty a.sessions && is_empty b.sessions) && str_eq a.rest b.rest)

abbrev active : Active String
active = record {
  id = "j";
  direction = forward;
  before = plain "old";
  after = plain "new";
  forward_targets = record { node = router; config = config } ∷ [];
  rollback_targets = record { node = router; config = config } ∷ [];
}

abbrev interrupted : World String
interrupted = record { inventory = plain "old"; journal = some active; calls = [] }

abbrev replay : Replay String
replay = record {
  unreadable = none;
  same = same_plain;
  stage = λ n c. replied true [] [];
  apply = λ n c. replied true [] [];
  recover_rules = λ n a b. none;
  normalize = λ i. ok i;
  same_stored = same_rest;
  commit = commits;
  clears = writes;
}

recover-Ends_example : Ends replay active interrupted (recover replay interrupted)
recover-Ends_example = recover-Ends replay active interrupted refl

replay-IsHealthy : IsHealthy replay active
unfolding failure_of targets_of
replay-IsHealthy = record {
  readable = refl;
  staging = (refl, tt);
  applying = (refl, tt);
  rules = (refl, tt);
  normalizing = (_, refl);
  committing = refl;
  closing = refl;
}

known :
    (same_plain (plain "old") (desired_of active) || same_plain (plain "old") (opposite_of active))
    ≡ true
unfolding desired_of opposite_of
known = refl

recover-returns_example : (recover replay interrupted).1 ≡ none
recover-returns_example = recover-returns replay active interrupted replay-IsHealthy refl known

abbrev always : ℕ → Script String
always n = script

mutate_and_apply-IsOutcome_example : IsOutcome plan always 0 2 (mutate_and_apply plan always start)
mutate_and_apply-IsOutcome_example = mutate_and_apply-IsOutcome plan always start
