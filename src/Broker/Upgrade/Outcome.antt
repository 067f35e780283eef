-- ===== src/Broker/Upgrade/Outcome.antt =====
-- What a batch upgrade of src/agent-broker.ts comes to.
use birdbox.Prelude.{
  ℕ, suc, zero, ◌+◌, ◌≡◌, refl, ap, true, false, some, none, ◌++◌, drop, length-drop, length-append,
  ◌&&◌, List, [], ◌∷◌, map, arith, if◌then◌else◌, length, count, All, Bool-cases, inl, inr,
}
use birdbox.Broker.State.{AgentTaskResult}
use birdbox.Broker.Upgrade.{
  skipped, replies, Item, Turn, Upgrades, UpgradeEvent, begin_single, end_single, start_batch,
  finish_batch, take_turn, timed_out, skip_rest, run_batch, new_item, has_failed, has_skipped,
  has_succeeded, summarise, begin_upgrade, run_upgrades,
}

-- An item is finished in exactly one of three ways.
abbrev IsFinal : Item → Type 0
IsFinal i =
    (if has_failed i then 1 else 0)
      + (if has_skipped i then 1 else 0)
      + (if has_succeeded i then 1 else 0)
    ≡ 1

take_turn-IsFinal : (t : Turn) → IsFinal (take_turn t)
unfolding take_turn new_item
take_turn-IsFinal t = ground arith

run_batch-IsFinal : (ts : List Turn) → All IsFinal (run_batch ts)
unfolding run_batch
run_batch-IsFinal [] = tt
run_batch-IsFinal (t ∷ ts) = elim (Bool-cases (timed_out t)) [
  | inl stop ↦ rw stop (take_turn-IsFinal t, skipped-IsFinal t.finished ts)
  | inr go_on ↦ rw go_on (take_turn-IsFinal t, run_batch-IsFinal ts)
]
  where
    skipped-IsFinal : (now : ℕ) (us : List Turn) → All IsFinal (map (skip_rest now) us)
    skipped-IsFinal now [] = tt
    skipped-IsFinal now (u ∷ us) = (unfold skip_rest in refl, skipped-IsFinal now us)

count-IsFinal :
    (is : List Item)
    → All IsFinal is
    → count has_failed is + count has_skipped is + count has_succeeded is ≡ length is
count-IsFinal [] h = omega arith
count-IsFinal (i ∷ is) (p, h) = ground (arith, count-IsFinal is h)

length-run_batch : (ts : List Turn) → length (run_batch ts) ≡ length ts
unfolding run_batch
length-run_batch [] = refl
length-run_batch (t ∷ ts) = elim (Bool-cases (timed_out t)) [
  | inl stop ↦ rw stop (ap suc (length-skipped t.finished ts))
  | inr go_on ↦ rw go_on (ap suc (length-run_batch ts))
]
  where
    length-skipped : (now : ℕ) (us : List Turn) → length (map (skip_rest now) us) ≡ length us
    length-skipped now [] = refl
    length-skipped now (u ∷ us) = ap suc (length-skipped now us)

-- When a batch upgrade has run, every node has succeeded, failed or been skipped, the numbers of the
-- closing event add up to the number of nodes, and the successes that it computes as what is left
-- are the nodes that did succeed.
pub summarise-run_batch :
    (ts : List Turn)
    → let s = summarise (run_batch ts) in
      (s.succeeded ≡ count has_succeeded (run_batch ts))
      × (s.succeeded + s.failed + s.skipped ≡ length ts)
unfolding summarise
summarise-run_batch ts = (
  omega (arith, count-IsFinal (run_batch ts) (run_batch-IsFinal ts)),
  omega (arith, count-IsFinal (run_batch ts) (run_batch-IsFinal ts), length-run_batch ts),
)

-- The agent of the node was never asked, and the node is skipped.
pub record IsUntried (i : Item) : Type 0 where
  pub unstarted : i.started_at ≡ none
  pub skipped : i.status ≡ skipped
  pub unanswered : i.result ≡ none

-- The agent answered that the upgrade ran into its timeout.
pub record IsTimeout (t : Turn) (r : AgentTaskResult) : Type 0 where
  pub met : t.met ≡ replies r
  pub failed : r.ok ≡ false
  pub code : r.code ≡ some "AGENT_TIMEOUT"

skip_rest-IsUntried : (now : ℕ) (t : Turn) → IsUntried (skip_rest now t)
unfolding skip_rest new_item
skip_rest-IsUntried now t = record { unstarted = refl; skipped = refl; unanswered = refl }

skipped-IsUntried : (now : ℕ) (ts : List Turn) → All IsUntried (map (skip_rest now) ts)
skipped-IsUntried now [] = tt
skipped-IsUntried now (t ∷ ts) = (skip_rest-IsUntried now t, skipped-IsUntried now ts)

All-drop : (n : ℕ) (is : List Item) → All IsUntried is → All IsUntried (drop n is)
All-drop zero is h = h
All-drop (suc n) [] h = tt
All-drop (suc n) (i ∷ is) (p, h) = All-drop n is h

timed_out_lem : (t : Turn) (r : AgentTaskResult) → IsTimeout t r → timed_out t ≡ true
unfolding timed_out
timed_out_lem t r h = rw (h.met, timed_out) (rw (h.failed, h.code) refl)

skipped_behind :
    (ts us : List Turn) (t : Turn)
    → timed_out t ≡ true
    → All IsUntried (drop (suc (length ts)) (run_batch (ts ++ t ∷ us)))
unfolding run_batch
skipped_behind [] us t stop = rw stop (skipped-IsUntried t.finished us)
skipped_behind (x ∷ ts) us t stop = elim (Bool-cases (timed_out x)) [
  | inl earlier ↦
      rw earlier (All-drop (suc (length ts)) _ (skipped-IsUntried x.finished (ts ++ t ∷ us)))
  | inr go_on ↦ rw go_on (skipped_behind ts us t stop)
]

-- Once the upgrade of a node has run into its timeout, no agent of a node behind it is asked: each of
-- these nodes is listed, unstarted and without an answer, as skipped.
pub run_batch-IsUntried :
    (ts us : List Turn) (t : Turn) (r : AgentTaskResult)
    → IsTimeout t r
    → let behind = drop (suc (length ts)) (run_batch (ts ++ t ∷ us)) in
      All IsUntried behind × (length behind ≡ length us)
run_batch-IsUntried ts us t r h = (
  skipped_behind ts us t (timed_out_lem t r h),
  omega (
    arith,
    length-drop (suc (length ts)) (run_batch (ts ++ t ∷ us)),
    length-run_batch (ts ++ t ∷ us),
    length-append ts (t ∷ us),
  ),
)

-- A single upgrade and a batch never run at once.
abbrev pub IsExclusive : Upgrades → Type 0
IsExclusive u = (u.batch_running && u.single_running) ≡ false

begin_upgrade-IsExclusive :
    (e : UpgradeEvent) (u : Upgrades) → IsExclusive u → IsExclusive (begin_upgrade e u).0
unfolding begin_upgrade
begin_upgrade-IsExclusive begin_single u h = ground arith
begin_upgrade-IsExclusive end_single u h = ground arith
begin_upgrade-IsExclusive start_batch u h = ground arith
begin_upgrade-IsExclusive finish_batch u h = ground arith

-- Whatever is begun and ended, no single upgrade runs beside a batch.
pub run_upgrades-IsExclusive :
    (u : Upgrades) (es : List UpgradeEvent) → IsExclusive u → IsExclusive (run_upgrades u es)
unfolding run_upgrades
run_upgrades-IsExclusive u [] h = h
run_upgrades-IsExclusive u (e ∷ es) h =
    run_upgrades-IsExclusive (begin_upgrade e u).0 es (begin_upgrade-IsExclusive e u h)
