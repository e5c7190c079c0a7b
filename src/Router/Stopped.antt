-- ===== src/Router/Stopped.antt =====
-- scheduler/router.py: what `cancel` does to the task that it names, and to the others.
use clique.Prelude.{
  String, ◌≡◌, refl, Bool, true, false, ◌||◌, Option, none, some, Bool-cases, inl, inr, ◌is◌,
  is_iff, arith, ap, ◌∙◌,
}
use clique.Types.{TaskState, is_terminal, is_queued, in_flight, cancelled}
use clique.Router.{Queue, Row, find_row, cancel, cancels, is_open}
use clique.Router.Rows.{find_row-update, find_row-has_id, map_row, when}

abbrev pub is_ended : Option Row → Bool
is_ended none = true
is_ended (some r) = is_terminal r.state

-- The task is not there, or its row has ended.
abbrev pub is_stopped : String → Queue → Bool
is_stopped tid q = is_ended (find_row tid q.rows)

abbrev call_off : Row → Row
call_off r = record r { state = cancelled }

open-or-ended : (s : TaskState) → (is_queued s || in_flight s) ≡ false → is_terminal s ≡ true
open-or-ended TaskState.queued h = ground arith
open-or-ended TaskState.assigned h = ground arith
open-or-ended TaskState.running h = ground arith
open-or-ended TaskState.succeeded h = refl
open-or-ended TaskState.failed h = refl
open-or-ended TaskState.cancelled h = refl
open-or-ended TaskState.expired h = refl

when-ended :
    (u : String) (r : Row)
    → is_terminal r.state ≡ true
    → is_terminal (when (cancels u) call_off r).state ≡ true
when-ended u r h = elim (Bool-cases (cancels u r)) [ inl e ↦ rw e refl | inr e ↦ rw e h ]

when-own :
    (tid : String) (r : Row)
    → (r.task_id is tid) ≡ true
    → is_terminal (when (cancels tid) call_off r).state ≡ true
when-own tid r own = elim (Bool-cases (is_open r)) [
  | inl e ↦ rw (own, e) refl
  | inr e ↦ when-ended tid r (open-or-ended r.state e)
]

map-own :
    (tid : String) (o : Option Row)
    → ((r : Row) → o ≡ some r → r.task_id ≡ tid)
    → is_ended (map_row (when (cancels tid) call_off) o) ≡ true
map-own tid none h = refl
map-own tid (some r) h = when-own tid r ((is_iff r.task_id tid).1 (h r refl))

map-ended :
    (u : String) (o : Option Row)
    → is_ended o ≡ true
    → is_ended (map_row (when (cancels u) call_off) o) ≡ true
map-ended u none h = refl
map-ended u (some r) h = when-ended u r h

map-other :
    (tid u : String) (o : Option Row)
    → (u is tid) ≡ false
    → ((r : Row) → o ≡ some r → r.task_id ≡ tid)
    → map_row (when (cancels u) call_off) o ≡ o
map-other tid u none other h = refl
map-other tid u (some r) other h =
    let away : (r.task_id is u) ≡ false =
      ground (arith, h r refl, is_iff r.task_id u, is_iff u tid) in
    rw away refl

find_row-cancel :
    (tid u : String) (q : Queue)
    → find_row tid (cancel u q).1.rows ≡ map_row (when (cancels u) call_off) (find_row tid q.rows)
unfolding cancel
find_row-cancel tid u q = find_row-update (cancels u) call_off (λ r. refl) tid q.rows

pub cancel-is_stopped : (tid : String) (q : Queue) → is_stopped tid (cancel tid q).1 ≡ true
cancel-is_stopped tid q =
    ap is_ended (find_row-cancel tid tid q)
    ∙ map-own tid (find_row tid q.rows) (λ r e. find_row-has_id tid q.rows e)

pub is_stopped-cancel :
    (tid u : String) (q : Queue) → is_stopped tid q ≡ true → is_stopped tid (cancel u q).1 ≡ true
is_stopped-cancel tid u q h =
    ap is_ended (find_row-cancel tid u q) ∙ map-ended u (find_row tid q.rows) h

pub cancel-other :
    (tid u : String) (q : Queue)
    → (u is tid) ≡ false
    → find_row tid (cancel u q).1.rows ≡ find_row tid q.rows
cancel-other tid u q other =
    find_row-cancel tid u q
    ∙ map-other tid u (find_row tid q.rows) other (λ r e. find_row-has_id tid q.rows e)
