-- ===== src/Ledger/Totals.antt =====
-- scheduler/ledger.py: the sums of the summary, and one row for each task.
use clique.Prelude.{
  ℕ, String, ◌+◌, ◌≤◌, ◌≡◌, refl, sym, ◌∙◌, Bool, true, false, Option, List, [], ◌∷◌, ◌++◌, arith,
  length, length-append, map, Bool-cases, inl, inr, is_iff,
}
use clique.Types.{TaskView}
use clique.Ledger.{
  LedgerRow, Book, duplicate, entered, has_task, is_accepted, row_for, enter, record_task,
  sum_accepted, Group, one_if, add_row, group_by, same_node, same_state, named, summary,
}

-- The rows that the groups count, and the accepted ones.
abbrev pub all_terminal : {K : Type 0} → List (Group K) → ℕ
all_terminal [] = 0
all_terminal (g ∷ gs) = g.terminal + all_terminal gs

abbrev pub all_accepted : {K : Type 0} → List (Group K) → ℕ
all_accepted [] = 0
all_accepted (g ∷ gs) = g.accepted + all_accepted gs

module _ {K : Type 0} (same : K → K → Bool) where
  add_row-totals :
      (k : K) (a : Bool) (gs : List (Group K))
      → (all_terminal (add_row same k a gs) ≡ all_terminal gs + 1)
        × (all_accepted (add_row same k a gs) ≡ all_accepted gs + one_if a)
  unfolding add_row
  add_row-totals k a [] = (omega arith, omega arith)
  add_row-totals k a (g ∷ gs) = elim (Bool-cases (same g.key k)) [
    | inl e ↦ rw e (omega arith, omega arith)
    | inr e ↦ let (t, c) = add_row-totals k a gs in rw e (omega (arith, t), omega (arith, c))
  ]

  group_by-totals :
      (f : LedgerRow → K) (rows : List LedgerRow)
      → (all_terminal (group_by same f rows) ≡ length rows)
        × (all_accepted (group_by same f rows) ≡ sum_accepted rows)
  unfolding group_by sum_accepted
  group_by-totals f [] = (refl, refl)
  group_by-totals f (r ∷ rs) =
      let (t, c) = group_by-totals f rs in
      let (t', c') = add_row-totals (f r) r.accepted (group_by same f rs) in
      (
        omega (arith, t, t'),
        elim (Bool-cases r.accepted) [
          | inl e ↦ let k = rw e at c' in rw e (omega (arith, c, k))
          | inr e ↦ let k = rw e at c' in rw e (omega (arith, c, k))
        ],
      )

map-named :
    (gs : List (Group (Option String)))
    → (all_terminal (map named gs) ≡ all_terminal gs)
      × (all_accepted (map named gs) ≡ all_accepted gs)
map-named [] = (refl, refl)
map-named (g ∷ gs) = let (t, c) = map-named gs in (omega (arith, t), omega (arith, c))

sum_accepted-bound : (rows : List LedgerRow) → sum_accepted rows ≤ length rows
unfolding sum_accepted
sum_accepted-bound [] = omega arith
sum_accepted-bound (r ∷ rs) = let rest = sum_accepted-bound rs in ground arith

-- The lines of the summary add up: the tasks by state and by node to the total, the accepted ones by
-- state and by node to the accepted total, which is no more than the total.
pub summary-totals :
    (b : Book)
    → (all_terminal (summary b).by_state ≡ (summary b).total_terminal)
      × ((all_terminal (summary b).by_node ≡ (summary b).total_terminal)
          × ((all_accepted (summary b).by_state ≡ (summary b).accepted_tasks)
              × ((all_accepted (summary b).by_node ≡ (summary b).accepted_tasks)
                  × ((summary b).accepted_tasks ≤ (summary b).total_terminal))))
unfolding summary
summary-totals b =
    let (st, sa) = group_by-totals same_state (λ (r : LedgerRow). r.state) b.rows in
    let (nt, na) = group_by-totals same_node (λ (r : LedgerRow). r.node_id) b.rows in
    let (mt, ma) = map-named (group_by same_node (λ (r : LedgerRow). r.node_id) b.rows) in
    (st, (mt ∙ nt, (sa, (ma ∙ na, sum_accepted-bound b.rows))))

has_task-snoc :
    (tid : String) (rows : List LedgerRow) (r : LedgerRow)
    → r.task_id ≡ tid
    → has_task tid (rows ++ r ∷ []) ≡ true
unfolding has_task
has_task-snoc tid [] r e = let same = (is_iff r.task_id tid).1 e in rw same refl
has_task-snoc tid (s ∷ rows) r e = let rest = has_task-snoc tid rows r e in ground arith

sum_accepted-snoc :
    (rows : List LedgerRow) (r : LedgerRow)
    → sum_accepted (rows ++ r ∷ []) ≡ sum_accepted rows + one_if r.accepted
unfolding sum_accepted
sum_accepted-snoc [] r = ground arith
sum_accepted-snoc (s ∷ rows) r = let rest = sum_accepted-snoc rows r in ground arith

record_task-fresh :
    (now : ℕ) (view : TaskView) (b : Book)
    → has_task view.request.task_id b.rows ≡ false
    → record_task now view b ≡ (entered (is_accepted view), enter now view b)
unfolding record_task
record_task-fresh now view b h = rw (record_task, h) refl

record_task-duplicate :
    (now : ℕ) (view : TaskView) (b : Book)
    → has_task view.request.task_id b.rows ≡ true
    → record_task now view b ≡ (duplicate, b)
unfolding record_task
record_task-duplicate now view b h = rw (record_task, h) refl

-- A task that is not in the ledger enters with one call, which adds one to the total and, if it is
-- accepted, one to the accepted tasks; after that call the task is a duplicate that changes nothing,
-- whatever state it is reported in.
pub record_task-once :
    (now later : ℕ) (view again : TaskView) (b : Book)
    → has_task view.request.task_id b.rows ≡ false
    → again.request.task_id ≡ view.request.task_id
    → ((summary (record_task now view b).1).total_terminal ≡ (summary b).total_terminal + 1)
      × (((summary (record_task now view b).1).accepted_tasks
            ≡ (summary b).accepted_tasks + one_if (is_accepted view))
          × (record_task later again (record_task now view b).1
              ≡ (duplicate, (record_task now view b).1)))
unfolding summary
record_task-once now later view again b fresh same =
    let there = has_task-snoc again.request.task_id b.rows (row_for now view b) (sym same) in
    rw (record_task-fresh now view b fresh) (
      length-append b.rows (row_for now view b ∷ []),
      (
        sum_accepted-snoc b.rows (row_for now view b),
        record_task-duplicate later again (enter now view b) there,
      ),
    )
