-- ===== src/Router/Submit.antt =====
-- `submit` of scheduler/router.py: resubmission by idempotency key, and the cap on open tasks.
use clique.Prelude.{
  sym, ◌∙◌, subst, ℕ, suc, String, ◌+◌, ◌≤◌, ◌≡◌, refl, Bool, true, false, none, some, List, [],
  ◌∷◌, ◌++◌, arith, Bool-cases, Option-cases, inl, inr, ◌is◌, is_iff, length, select, leb,
}
use clique.Types.{TaskRequest}
use clique.Router.{
  Row, Config, Queue, Result, ok, find_row, find_key, submit, insert_row, new_row, is_open,
  or_fresh,
}

find_key-append :
    (k : String) (rows : List Row) (new : Row)
    → find_key k rows ≡ none
    → (new.request.idempotency_key is k) ≡ true
    → find_key k (rows ++ new ∷ []) ≡ some new
unfolding find_key
find_key-append k [] new h e = ground arith
find_key-append k (r ∷ rs) new h e = ground (arith, find_key-append k rs new)

-- What a submission says that finds the key.
again :
    (cfg : Config) (fresh : String) (request : TaskRequest) (q : Queue) {r : Row}
    → find_key request.idempotency_key q.rows ≡ some r
    → submit cfg fresh request q ≡ (ok r.task_id, q)
unfolding submit
again cfg fresh request q e = rw (e, submit)

-- The state and identifier that an accepted submission leaves, under which a repetition is `again`.
Settles : Config → String → TaskRequest → Result String × Queue → Type 0
Settles cfg fresh request w = submit cfg fresh request w.1 ≡ w

insert_row-Settles :
    (cfg : Config) (fresh : String) (request request' : TaskRequest) (q q' : Queue) {tid : String}
    → insert_row request q ≡ (ok tid, q')
    → request'.idempotency_key ≡ request.idempotency_key
    → find_key request.idempotency_key q.rows ≡ none
    → submit cfg fresh request' q' ≡ (ok tid, q')
unfolding insert_row Settles
insert_row-Settles cfg fresh request request' q q' h same e =
    elim (Option-cases (find_row request.task_id q.rows)) [
      | inr (s, old) ↦ absurd (ground arith)
      | inl new ↦ subst (Settles cfg fresh request') (rw (new, insert_row) at h) (
          again cfg fresh request' _ {r = new_row request (q.seq + 1)} (
            rw same (
              find_key-append request.idempotency_key q.rows (new_row request (q.seq + 1)) e
                ((is_iff _ _).1 refl))))
    ]

-- A submission that was accepted is idempotent: submitted again, with the same idempotency key and
-- whatever other content, it returns the same identifier and changes nothing.
pub submit-idempotent :
    (cfg : Config) (fresh fresh' : String) (request request' : TaskRequest) (q q' : Queue)
    {tid : String}
    → submit cfg fresh request q ≡ (ok tid, q')
    → request'.idempotency_key ≡ request.idempotency_key
    → submit cfg fresh' request' q' ≡ (ok tid, q')
unfolding Settles submit
submit-idempotent cfg fresh fresh' request request' q q' {tid} h same =
    elim (Option-cases (find_key request.idempotency_key q.rows)) [
      | inr (r, e) ↦
          subst (Settles cfg fresh' request') (sym (again cfg fresh request q {r = r} e) ∙ h)
            (again cfg fresh' request' q {r = r} (rw same e))
      | inl e ↦ elim (Bool-cases (leb cfg.queue_cap (length (select is_open q.rows)))) [
        | inl full ↦ absurd (refused full e)
        | inr room ↦ insert_row-Settles cfg fresh' _ request' q q' (inserted room e) same e
      ]
    ]
  where
    refused :
        leb cfg.queue_cap (length (select is_open q.rows)) ≡ true
        → find_key request.idempotency_key q.rows ≡ none
        → ⊥
    refused full e = unfold submit in ground arith

    inserted :
        leb cfg.queue_cap (length (select is_open q.rows)) ≡ false
        → find_key request.idempotency_key q.rows ≡ none
        → insert_row (record request { task_id = or_fresh request.task_id fresh }) q ≡ (ok tid, q')
    inserted room e = rw (e, submit, room) at h

length-select-append :
    (p : Row → Bool) (rows : List Row) (new : Row)
    → length (select p (rows ++ new ∷ [])) ≤ suc (length (select p rows))
length-select-append p [] new = ground arith
length-select-append p (r ∷ rs) new = ground (arith, length-select-append p rs new)

insert_row-open :
    (request : TaskRequest) (q : Queue)
    → length (select is_open (insert_row request q).1.rows) ≤ suc (length (select is_open q.rows))
unfolding insert_row
insert_row-open request q = elim (Option-cases (find_row request.task_id q.rows)) [
  | inl e ↦ rw (e, insert_row) (length-select-append is_open q.rows _)
  | inr (r, e) ↦ rw (e, insert_row) (omega arith)
]

-- Submissions never take the number of open tasks past the cap.
pub submit-cap :
    (cfg : Config) (fresh : String) (request : TaskRequest) (q : Queue)
    → length (select is_open q.rows) ≤ cfg.queue_cap
    → length (select is_open (submit cfg fresh request q).1.rows) ≤ cfg.queue_cap
unfolding submit
submit-cap cfg fresh request q h = elim (Option-cases (find_key request.idempotency_key q.rows)) [
  | inr (r, e) ↦ rw (e, submit) h
  | inl e ↦ elim (Bool-cases (leb cfg.queue_cap (length (select is_open q.rows)))) [
    | inl full ↦ rw (e, submit, full) h
    | inr room ↦
        rw (e, submit, room)
          (below room
            (insert_row-open (record request { task_id = or_fresh request.task_id fresh }) q))
  ]
]
  where
    below : {n m : ℕ} → leb cfg.queue_cap n ≡ false → m ≤ suc n → m ≤ cfg.queue_cap
    below r h = ground arith
