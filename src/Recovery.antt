-- ===== src/Recovery.antt =====
-- src/deployment-recovery.ts: the runner that replays an unfinished deployment when the controller
-- starts, and tries again ever more slowly. How each attempt goes is given as a list; delays are
-- whole milliseconds. A second call of `run` gets the promise of the first.
use birdbox.Prelude.{
  ℕ, zero, suc, ◌+◌, ◌*◌, ◌≤◌, ◌≡◌, ◌↔◌, ◌≢◌, refl, sym, ap, ◌∙◌, Bool, true, false, not, Option,
  none, some, List, [], ◌∷◌, ◌++◌, arith, leb, if◌then◌else◌, or_else, Bool-cases, inl, inr,
}
mod Tests

pub data RecoveryState : Type 0 where
  idle pending failed : RecoveryState

-- What the runner reports: a state, or a failure with the time until the next attempt.
pub data Notice : Type 0 where
  state_change : RecoveryState → Notice
  failure : ℕ → Notice

pub record Options : Type 0 where
  pub pending : Bool
  pub initial_delay_ms : Option ℕ
  pub max_delay_ms : Option ℕ

-- Before an attempt the runner looks whether it has been stopped.
pub record Attempt : Type 0 where
  pub stopped : Bool
  pub recovers : Bool

-- `waiting` is a runner whose next attempt has not come yet.
pub data Ending : Type 0 where
  finished stopped rejected waiting : Ending

pub record Runner : Type 0 where
  pub state : RecoveryState
  pub notices : List Notice
  pub ending : Ending

abbrev pub lesser : ℕ → ℕ → ℕ
lesser a b = if leb a b then a else b

abbrev pub greater : ℕ → ℕ → ℕ
greater a b = if leb a b then b else a

unfoldable pub initial_delay : Options → ℕ
initial_delay o = greater 1 (or_else o.initial_delay_ms 5000)

unfoldable pub max_delay : Options → ℕ
max_delay o = greater (initial_delay o) (or_else o.max_delay_ms 300000)

unfoldable pub initial_state : Options → RecoveryState
initial_state o = if o.pending then pending else idle

abbrev noting : List Notice → Runner → Runner
noting ns r = record r { notices = ns ++ r.notices }

unfoldable pub retry : ℕ → ℕ → RecoveryState → List Attempt → Runner
retry max delay state [] = record { state = state; notices = []; ending = waiting }
retry max delay state (a ∷ as') =
    let rest = retry max (lesser (delay * 2) max) failed as' in
    if a.stopped
    then record { state = state; notices = []; ending = stopped }
    else if a.recovers
    then record { state = idle; notices = state_change idle ∷ []; ending = finished }
    else noting (state_change failed ∷ failure delay ∷ []) rest

-- Without a journal the one attempt is not made again.
unfoldable pub recover_once : List Attempt → Runner
recover_once [] = record { state = idle; notices = []; ending = waiting }
recover_once (a ∷ as') =
    if a.recovers
    then record { state = idle; notices = state_change idle ∷ []; ending = finished }
    else record { state = idle; notices = []; ending = rejected }

unfoldable pub run : Options → List Attempt → Runner
run o as' =
    if not o.pending
    then recover_once as'
    else retry (max_delay o) (initial_delay o) (initial_state o) as'

-- `d` doubled `i` times.
abbrev pub doubled : ℕ → ℕ → ℕ
doubled zero d = d
doubled (suc i) d = doubled i d * 2

-- The reports of failures number `i` to `i + k`.
abbrev pub failures : ℕ → ℕ → ℕ → ℕ → List Notice
failures max d i zero = []
failures max d i (suc k) =
    state_change failed ∷ failure (lesser (doubled i d) max) ∷ failures max d (suc i) k

abbrev pub failing : ℕ → List Attempt
failing zero = []
failing (suc k) = record { stopped = false; recovers = false } ∷ failing k

abbrev pub success : Attempt
success = record { stopped = false; recovers = true }

retry-failing :
    (max d i k : ℕ) (state : RecoveryState) (more : List Attempt)
    → retry max (lesser (doubled i d) max) state (failing k ++ success ∷ more) ≡ record {
      state = idle;
      notices = failures max d i k ++ state_change idle ∷ [];
      ending = finished;
    }
unfolding retry
retry-failing max d i zero state more = refl
retry-failing max d i (suc k) state more =
    ap (noting (state_change failed ∷ failure (lesser (doubled i d) max) ∷ [])) (
      ap (λ x. retry max x failed (failing k ++ success ∷ more)) (step (doubled i d))
      ∙ retry-failing max d (suc i) k failed more)
  where
    step : (x : ℕ) → lesser (lesser x max * 2) max ≡ lesser (x * 2) max
    step x = ground arith

run-pending :
    (o : Options) (as' : List Attempt)
    → o.pending ≡ true
    → run o as' ≡ retry (max_delay o) (initial_delay o) pending as'
unfolding run initial_state max_delay initial_delay
run-pending o as' e = rw e refl

-- Where a deployment is pending and an attempt succeeds after `k` have failed, the runner ends idle,
-- has tried no more, and the wait behind failure number `i`, counted from 0, was the initial delay
-- doubled `i` times, but at most the longest delay.
pub run-failing :
    (o : Options) (k : ℕ) (more : List Attempt)
    → o.pending ≡ true
    → run o (failing k ++ success ∷ more) ≡ record {
      state = idle;
      notices = failures (max_delay o) (initial_delay o) 0 k ++ state_change idle ∷ [];
      ending = finished;
    }
run-failing o k more e =
    run-pending o (failing k ++ success ∷ more) e
    ∙ (ap (λ x. retry (max_delay o) x pending (failing k ++ success ∷ more)) start
        ∙ retry-failing (max_delay o) (initial_delay o) 0 k pending more)
  where
    clipped : (x y : ℕ) → x ≡ lesser x (greater x y)
    clipped x y = ground arith

    start : initial_delay o ≡ lesser (initial_delay o) (max_delay o)
    start = unfold max_delay in clipped (initial_delay o) (or_else o.max_delay_ms 300000)

-- One attempt recovers, those before it fail, and the runner is not stopped up to there.
abbrev pub Recovers : List Attempt → Type 0
Recovers as' = (k : ℕ) × (more : List Attempt) × (as' ≡ failing k ++ success ∷ more)

attempt-eq :
    (a : Attempt) (b : Bool)
    → a.stopped ≡ false
    → a.recovers ≡ b
    → a ≡ record { stopped = false; recovers = b }
attempt-eq a b e r = λ i. record { stopped = e i; recovers = r i }

retry-idle :
    (max delay : ℕ) (state : RecoveryState) (as' : List Attempt)
    → state ≢ idle
    → (retry max delay state as').state ≡ idle
    → Recovers as'
unfolding retry Recovers
retry-idle max delay state [] h e = absurd (h e)
retry-idle max delay state (a ∷ as') h e = elim (Bool-cases a.stopped) [
  | inl out ↦ absurd (let e' = rw out at e in h e')
  | inr on ↦ elim (Bool-cases a.recovers) [
    | inl r ↦ (0, as', ap (λ x. x ∷ as') (attempt-eq a true on r))
    | inr r ↦
        let e' = rw (on, r) at e in
        let (k, more, is) = retry-idle max (lesser (delay * 2) max) failed as' (λ x. cc x) e' in
        (suc k, more, rw (attempt-eq a false on r, is) refl)
  ]
]

-- A runner that has found a pending deployment shows itself idle exactly if one of the attempts
-- recovers, and neither it nor one before it finds the runner stopped.
pub run-idle :
    (o : Options) (as' : List Attempt)
    → o.pending ≡ true
    → ((run o as').state ≡ idle) ↔ Recovers as'
run-idle o as' e = (
  λ idles.
      let retried = rw (run-pending o as' e) at idles in
      retry-idle (max_delay o) (initial_delay o) pending as' (λ x. cc x) retried,
  λ (k, more, is). rw (is, run-failing o k more e) refl,
)
