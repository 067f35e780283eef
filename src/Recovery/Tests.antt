-- ===== src/Recovery/Tests.antt =====
-- Runs of the model of src/deployment-recovery.ts.
use birdbox.Prelude.{◌≡◌, ◌↔◌, refl, true, none, some, [], ◌∷◌, ◌++◌}
use birdbox.Recovery.{
  Options, idle, failed, state_change, failure, finished, run, Recovers, run-failing, run-idle,
  failing, success, failures, initial_delay, max_delay,
}

abbrev options : Options
options = record { pending = true; initial_delay_ms = none; max_delay_ms = some 15000 }

waits :
    failures (max_delay options) (initial_delay options) 0 3
    ≡ state_change failed
      ∷ failure 5000
      ∷ state_change failed
      ∷ failure 10000
      ∷ state_change failed
      ∷ failure 15000
      ∷ []
unfolding max_delay initial_delay
waits = refl

run-failing_example : run options (failing 3 ++ success ∷ []) ≡ record {
  state = idle;
  notices = failures (max_delay options) (initial_delay options) 0 3 ++ state_change idle ∷ [];
  ending = finished;
}
run-failing_example = run-failing options 3 [] refl

run-idle_example : ((run options (failing 2)).state ≡ idle) ↔ Recovers (failing 2)
run-idle_example = run-idle options (failing 2) refl
