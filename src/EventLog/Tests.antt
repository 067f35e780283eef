-- ===== src/EventLog/Tests.antt =====
-- Runs of the model of src/change-event-log.ts.
use birdbox.Prelude.{ℕ, zero, suc, ◌≡◌, refl, none, some, List, [], ◌∷◌, map, length, All}
use birdbox.EventLog.{Call, add_all, add, last, entry_of, add_all-last, IsShort}

abbrev calls : ℕ → List Call
calls zero = []
calls (suc n) = record { at = n; level = "info"; message = some (n ∷ []); node_id = none } ∷ calls n

oldest_goes : length (add_all [] (calls 103)) ≡ 100
unfolding add_all add
oldest_goes = refl

add_all-last_example :
    (add_all [] (calls 103) ≡ last 100 (map entry_of (calls 103)))
    × All IsShort (add_all [] (calls 103))
add_all-last_example = add_all-last (calls 103)
