-- ===== src/EventLog.antt =====
-- src/change-event-log.ts: the bounded log of events that the controller shows. A missing message is
-- the empty text.
use birdbox.Prelude.{
  append_assoc, append_nil, and-true, ℕ, zero, suc, ◌+◌, ◌-◌, ◌≤◌, ◌≡◌, refl, sym, ap, ◌∙◌, true,
  false, String, Option, none, some, List, [], ◌∷◌, ◌++◌, map, arith, ltb, leb, if◌then◌else◌,
  or_else, length, length-append, take, length-take-le, All, All-append, Bool-cases, inl, inr, drop,
  last, drop-append, drop-drop, length-drop,
}
use birdbox.Prelude.Text.{Text, units}
mod Tests

pub record ChangeEvent : Type 0 where
  pub timestamp : ℕ
  pub level : String
  pub message : Text
  pub node_id : Option String

abbrev pub max_event_message_length : ℕ
max_event_message_length = 8192

unfoldable pub bounded_message : Text → Text
bounded_message message =
    if ltb max_event_message_length (length message)
    then take max_event_message_length message ++ units "\n...消息已截断"
    else message

-- A call of `add`.
pub record Call : Type 0 where
  pub at : ℕ
  pub level : String
  pub message : Option Text
  pub node_id : Option String

unfoldable pub entry_of : Call → ChangeEvent
entry_of c = record {
  timestamp = c.at;
  level = c.level;
  message = bounded_message (or_else c.message []);
  node_id = c.node_id;
}

-- The log after `add`, the oldest entries making room.
unfoldable pub add : List ChangeEvent → Call → List ChangeEvent
add events c =
    (if leb 100 (length events) then drop (length events - 99) events else events)
    ++ entry_of c ∷ []

unfoldable pub add_all : List ChangeEvent → List Call → List ChangeEvent
add_all events [] = events
add_all events (c ∷ cs) = add_all (add events c) cs

-- One more entry, to a log that has been cut to the last hundred.
add-last :
    (xs : List ChangeEvent) (c : Call) → add (last 100 xs) c ≡ last 100 (xs ++ entry_of c ∷ [])
unfolding add
add-last xs c = elim (Bool-cases (leb 100 (length (last 100 xs)))) [
  | inl full ↦ rw full (
      ap (λ t. t ++ entry_of c ∷ [])
        (drop-drop (length (last 100 xs) - 99) (length xs - 100) xs
          ∙ ap (λ k. drop k xs) (taken (at_least _ full)))
      ∙ sym (drop-append (length (xs ++ entry_of c ∷ []) - 100) xs (entry_of c ∷ []) fits))
  | inr room ↦ rw room (
      ap (λ t. t ++ entry_of c ∷ []) (ap (λ k. drop k xs) (kept (below _ room)))
      ∙ sym (drop-append (length (xs ++ entry_of c ∷ []) - 100) xs (entry_of c ∷ []) fits))
]
  where
    at_least : (n : ℕ) → leb 100 n ≡ true → 100 ≤ n
    at_least n h = ground arith

    below : (n : ℕ) → leb 100 n ≡ false → suc n ≤ 100
    below n h = ground arith

    fits : length (xs ++ entry_of c ∷ []) - 100 ≤ length xs
    fits = omega (arith, length-append xs (entry_of c ∷ []))

    taken :
        100 ≤ length (last 100 xs)
        → length (last 100 xs) - 99 + (length xs - 100) ≡ length (xs ++ entry_of c ∷ []) - 100
    taken h = omega (arith, h, length-append xs (entry_of c ∷ []), length-drop (length xs - 100) xs)

    kept : suc (length (last 100 xs)) ≤ 100 → length xs - 100 ≡ length (xs ++ entry_of c ∷ []) - 100
    kept h = omega (arith, h, length-append xs (entry_of c ∷ []), length-drop (length xs - 100) xs)

add_all-cut :
    (cs : List Call) (xs : List ChangeEvent)
    → add_all (last 100 xs) cs ≡ last 100 (xs ++ map entry_of cs)
unfolding add_all
add_all-cut [] xs = ap (last 100) (sym (append_nil xs))
add_all-cut (c ∷ cs) xs = rw (add-last xs c) (
    add_all-cut cs (xs ++ entry_of c ∷ [])
    ∙ ap (last 100) (append_assoc xs (entry_of c ∷ []) (map entry_of cs)))

length-bounded_message-le : (m : Text) → length (bounded_message m) ≤ 8201
unfolding bounded_message units
length-bounded_message-le m = elim (Bool-cases (ltb 8192 (length m))) [
  | inl long ↦
      rw long
        (omega (arith, length-append (take 8192 m) (units "\n...消息已截断"), length-take-le 8192 m))
  | inr short ↦ rw short (within _ short)
]
  where
    within : (n : ℕ) → ltb 8192 n ≡ false → n ≤ 8201
    within n h = ground arith

All-drop {ℓ κ} : {A : Type ℓ} (P : A → Type κ) (n : ℕ) (xs : List A) → All P xs → All P (drop n xs)
All-drop P zero xs h = h
All-drop P (suc n) [] h = tt
All-drop P (suc n) (x ∷ xs) (p, h) = All-drop P n xs h

abbrev pub IsShort : ChangeEvent → Type 0
IsShort e = length e.message ≤ 8201

entries-IsShort : (cs : List Call) → All IsShort (map entry_of cs)
unfolding entry_of
entries-IsShort [] = tt
entries-IsShort (c ∷ cs) = (length-bounded_message-le (or_else c.message []), entries-IsShort cs)

-- The log of a controller that has just started shows the last hundred of all the events that were
-- added, in their order, and no message in it is longer than 8201 units.
pub add_all-last :
    (cs : List Call) → (add_all [] cs ≡ last 100 (map entry_of cs)) × All IsShort (add_all [] cs)
add_all-last cs = (
  add_all-cut cs [],
  rw (add_all-cut cs []) (All-drop IsShort _ (map entry_of cs) (entries-IsShort cs)),
)
