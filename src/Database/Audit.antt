-- ===== src/Database/Audit.antt =====
-- The trail of audit events in src/database.ts.
use birdbox.Prelude.{
  ◌≡◌, refl, sym, ap, ◌∙◌, ℕ, suc, ◌-◌, ◌≤◌, false, List, [], ◌∷◌, ◌++◌, ltb, if◌then◌else◌, arith,
  Bool-cases, inl, inr, append_assoc, append_nil, length, drop, last, last-append, length-drop,
  drop-drop,
}
use birdbox.Database.State.{AuditEvent}
use birdbox.Database.Memory.{
  Memory, empty_memory, append_audit_event, list_audit_events, reverse, bounded_limit, numbered,
  Limit, missing, negative, whole,
}

module _ {V : Type 0} where
  unfoldable pub append_all : List AuditEvent → Memory V → Memory V
  append_all [] db = db
  append_all (e ∷ es) db = append_all es (append_audit_event e db)

-- The events, numbered one after another.
unfoldable pub numbered_from : ℕ → List AuditEvent → List AuditEvent
numbered_from n [] = []
numbered_from n (e ∷ es) = numbered e n ∷ numbered_from (suc n) es

last-last {ℓ} : {A : Type ℓ} (k n : ℕ) (xs : List A) → k ≤ n → last k (last n xs) ≡ last k xs
last-last k n xs h =
    drop-drop (length (last n xs) - k) (length xs - n) xs
    ∙ ap (λ i. drop i xs) (omega (arith, h, length-drop (length xs - n) xs))

cut-last {ℓ} :
    {A : Type ℓ} (n : ℕ) (xs : List A)
    → (if ltb n (length xs) then drop (length xs - n) xs else xs) ≡ last n xs
cut-last n xs = elim (Bool-cases (ltb n (length xs))) [
  | inl long ↦ rw long refl
  | inr short ↦ rw short (ap (λ i. drop i xs) (nothing (length xs) short))
]
  where
    nothing : (l : ℕ) → ltb n l ≡ false → 0 ≡ l - n
    nothing l h = ground arith

bounded_limit-le : (limit : Limit) → bounded_limit limit ≤ 50000
bounded_limit-le missing = omega arith
bounded_limit-le negative = omega arith
bounded_limit-le (whole n) = ground arith

module _ {V : Type 0} where
  append_all-last :
      (es before : List AuditEvent) (db : Memory V)
      → db.audit_events ≡ last 50000 before
      → (append_all es db).audit_events ≡ last 50000 (before ++ numbered_from db.next_audit_id es)
  unfolding append_all append_audit_event numbered_from
  append_all-last [] before db is = is ∙ ap (last 50000) (sym (append_nil before))
  append_all-last (e ∷ es) before db is =
      append_all-last es (before ++ numbered e db.next_audit_id ∷ []) (append_audit_event e db) (
        cut-last 50000 (db.audit_events ++ numbered e db.next_audit_id ∷ [])
        ∙ (ap (λ t. last 50000 (t ++ numbered e db.next_audit_id ∷ [])) is
            ∙ last-append 50000 before (numbered e db.next_audit_id ∷ [])))
      ∙ ap (last 50000) (
          append_assoc before (numbered e db.next_audit_id ∷ [])
            (numbered_from (suc db.next_audit_id) es))

-- The trail that keeps no more than 50000 events shows what an endless one would show: of all the
-- events that were appended, numbered from 1 on, the latest ones, up to the limit, the latest first.
pub list_audit_events-append_all :
    (V : Type 0) (limit : Limit) (es : List AuditEvent)
    → list_audit_events limit (append_all es (empty_memory {V = V}))
      ≡ reverse (last (bounded_limit limit) (numbered_from 1 es))
unfolding list_audit_events empty_memory
list_audit_events-append_all V limit es =
    ap (λ t. reverse (last (bounded_limit limit) t)) (append_all-last es [] empty_memory refl)
    ∙ ap reverse
        (last-last (bounded_limit limit) 50000 (numbered_from 1 es) (bounded_limit-le limit))
