-- ===== src/Schedule/Placed.antt =====
-- scheduler/router.py: `schedule_pending` as a sequence of the steps of Router.Steps.
use clique.Prelude.{
  ℕ, String, ◌+◌, ◌≡◌, refl, ap, ◌∙◌, Bool, true, false, Option, some, List, [], ◌∷◌, arith, All,
  select, leb, Bool-cases, Option-cases, inl, inr, ◌is◌, is_iff,
}
use clique.Prelude.Sort.{sort_by, insert_by}
use clique.Types.{Session, Float, NodeInfo, is_queued}
use clique.Context
use clique.Router.{Row, Config, Queue, find_row, update, has_id, assign}
use clique.Router.Rows.{Absent, Distinct, id_of, find_row-update, find_row-has_id}
use clique.Router.Steps.{Reach, scheduled, here, next}
use clique.Router.Owned.{own_id, Owned}
use clique.Schedule.{
  Ready, choose, place_rows, schedule_pending, ready_nodes, count_on, has_slot, bump, lease_of,
  still_ready,
}

-- One run of steps after another.
pub Reach-then :
    (cfg : Config) {q q' q'' : Queue} → Reach cfg q q' → Reach cfg q' q'' → Reach cfg q q''
Reach-then cfg r here = r
Reach-then cfg r (next l s) = next (Reach-then cfg r l) s

-- The task waits in the queue.
abbrev pub Waits : String → List Row → Type 0
Waits tid rows = (s : Row) × ((find_row tid rows ≡ some s) × (is_queued s.state ≡ true))

Waits-update :
    (tid other : String) (f : Row → Row) (rows : List Row)
    → ((s : Row) → (f s).task_id ≡ s.task_id)
    → (tid is other) ≡ false
    → Waits tid rows
    → Waits tid (update (has_id other) f rows)
Waits-update tid other f rows same apart (s, (found, waits)) =
    let here_id : s.task_id ≡ tid = find_row-has_id tid rows found in
    let miss : has_id other s ≡ false = rw here_id apart in
    (s, (rw (find_row-update (has_id other) f same tid rows, found, miss), waits))

All-Waits :
    (other : String) (f : Row → Row) (rs rows : List Row)
    → ((s : Row) → (f s).task_id ≡ s.task_id)
    → Absent own_id other rs
    → All (λ r. Waits (own_id r) rows) rs
    → All (λ r. Waits (own_id r) (update (has_id other) f rows)) rs
All-Waits other f [] rows same a w = tt
All-Waits other f (r ∷ rs) rows same (a, more) (w, ws) =
    (Waits-update (own_id r) other f rows same a w, All-Waits other f rs rows same more ws)

module _ (fl : Float) (find : String → Option Session) (contexts : Option Context.Store)
    (cfg : Config) (fresh : ℕ → String) (now : ℕ) where
  open fl use {F}

  place_rows-Reach :
      (rs : List Row) (ready : List (Ready F)) (active : String → ℕ) (n : ℕ) (q : Queue)
      → Distinct own_id rs
      → All (λ r. Waits (own_id r) q.rows) rs
      → Reach cfg q (place_rows fl find contexts cfg fresh now rs ready active n q).1
  unfolding place_rows
  place_rows-Reach [] ready active n q d w = here
  place_rows-Reach (r ∷ rs) [] active n q d w = here
  place_rows-Reach (r ∷ rs) (x ∷ xs) active n q (a, d) ((s, (found, waits)), ws) =
      elim (Option-cases (choose fl find contexts r.request (x ∷ xs))) [
        | inl e ↦ rw (place_rows, e) (place_rows-Reach rs (x ∷ xs) active n q d ws)
        | inr (c, e) ↦
            let nid = c.node.0.node_id in
            let q' =
              assign (own_id r) nid (fresh n) (lease_of fl find contexts cfg fresh now r.request)
                q in
            let one = next here (
              scheduled (own_id r) nid (fresh n) (lease_of fl find contexts cfg fresh now r.request)
                q found waits) in
            rw (place_rows, e)
              (Reach-then cfg one (
                place_rows-Reach rs
                  (still_ready fl find contexts cfg fresh now c (bump nid active) (x ∷ xs))
                  (bump nid active) (n + 1) q' d
                  (unfold assign in All-Waits (own_id r) _ rs q.rows (λ y. refl) a ws)))
      ]

is-sym : (a b : String) → (a is b) ≡ false → (b is a) ≡ false
is-sym a b h = ground (arith, is_iff a b, is_iff b a)

module _ {ℓ} (P : Row → Type ℓ) (key : Row → ℕ) where
  All-insert_by : (x : Row) (rows : List Row) → P x → All P rows → All P (insert_by key x rows)
  unfolding insert_by
  All-insert_by x [] p a = (p, tt)
  All-insert_by x (y ∷ ys) p (q, a) = elim (Bool-cases (leb (key x) (key y))) [
    | inl e ↦ rw e (p, (q, a))
    | inr e ↦ rw e (q, All-insert_by x ys p a)
  ]

  All-sort_by : (rows : List Row) → All P rows → All P (sort_by key rows)
  unfolding sort_by
  All-sort_by [] a = tt
  All-sort_by (x ∷ xs) (p, a) = All-insert_by x (sort_by key xs) p (All-sort_by xs a)

module _ (key : Row → ℕ) where
  Distinct-insert_by :
      (x : Row) (rows : List Row)
      → Absent own_id (own_id x) rows
      → Distinct own_id rows
      → Distinct own_id (insert_by key x rows)
  unfolding insert_by
  Distinct-insert_by x [] a d = (tt, tt)
  Distinct-insert_by x (y ∷ ys) (b, a) (c, d) = elim (Bool-cases (leb (key x) (key y))) [
    | inl e ↦ rw e ((b, a), (c, d))
    | inr e ↦ rw e (
      All-insert_by (λ r. (own_id r is own_id y) ≡ false) key x ys (is-sym (own_id y) (own_id x) b)
          c,
      Distinct-insert_by x ys a d,
    )
  ]

  Distinct-sort_by : (rows : List Row) → Distinct own_id rows → Distinct own_id (sort_by key rows)
  unfolding sort_by
  Distinct-sort_by [] d = tt
  Distinct-sort_by (x ∷ xs) (a, d) =
      Distinct-insert_by x (sort_by key xs)
        (All-sort_by (λ r. (own_id r is own_id x) ≡ false) key xs a) (Distinct-sort_by xs d)

-- Every row is the one that its identifier finds.
found-ahead :
    (x : Row) (l rows : List Row)
    → Absent id_of x.task_id l
    → All (λ r. find_row r.task_id rows ≡ some r) l
    → All (λ r. find_row r.task_id (x ∷ rows) ≡ some r) l
unfolding find_row
found-ahead x [] rows a f = tt
found-ahead x (r ∷ l) rows (a, more) (f, fs) =
    let other = is-sym r.task_id x.task_id a in (rw other f, found-ahead x l rows more fs)

found-All :
    (rows : List Row) → Distinct id_of rows → All (λ r. find_row r.task_id rows ≡ some r) rows
unfolding find_row
found-All [] d = tt
found-All (x ∷ xs) (a, d) =
    let itself : (x.task_id is x.task_id) ≡ true = (is_iff x.task_id x.task_id).1 refl in
    (rw itself refl, found-ahead x xs xs a (found-All xs d))

abbrev waiting : Row → Bool
waiting r = is_queued r.state

Waits-select :
    (rows l : List Row)
    → All (λ r. find_row r.task_id rows ≡ some r) l
    → Owned l
    → All (λ r. Waits (own_id r) rows) (select waiting l)
Waits-select rows [] f o = tt
Waits-select rows (r ∷ l) (f, fs) (o, os) = elim (Bool-cases (waiting r)) [
  | inl e ↦ rw e ((r, (ap (λ k. find_row k rows) o ∙ f, e)), Waits-select rows l fs os)
  | inr e ↦ rw e (Waits-select rows l fs os)
]

Absent-select :
    (k : String) (l : List Row) → Absent id_of k l → Owned l → Absent own_id k (select waiting l)
Absent-select k [] a o = tt
Absent-select k (r ∷ l) (a, more) (o, os) = elim (Bool-cases (waiting r)) [
  | inl e ↦ rw e (rw o a, Absent-select k l more os)
  | inr e ↦ rw e (Absent-select k l more os)
]

Distinct-select : (l : List Row) → Distinct id_of l → Owned l → Distinct own_id (select waiting l)
Distinct-select [] d o = tt
Distinct-select (r ∷ l) (a, d) (o, os) = elim (Bool-cases (waiting r)) [
  | inl e ↦ rw e (rw o (Absent-select r.task_id l a os), Distinct-select l d os)
  | inr e ↦ rw e (Distinct-select l d os)
]

module _ (fl : Float) (find : String → Option Session) (contexts : Option Context.Store)
    (cfg : Config) (fresh : ℕ → String) (now : ℕ) where
  open fl use {F}

  -- Where identifiers are distinct and every row holds its own request, `schedule_pending` is a run of
  -- assignments of tasks that wait.
  pub schedule_pending-Reach :
      (nodes : List (NodeInfo F)) (q : Queue)
      → Distinct id_of q.rows
      → Owned q.rows
      → Reach cfg q (schedule_pending fl find contexts cfg fresh now nodes q).1
  unfolding schedule_pending
  schedule_pending-Reach nodes q d o =
      let by_seq = λ (r : Row). r.created_seq in
      let rows = sort_by by_seq (select waiting q.rows) in
      place_rows-Reach fl find contexts cfg fresh now rows
        (select (has_slot fl find contexts cfg fresh now q.rows) (ready_nodes nodes))
        (λ nid. count_on nid q.rows) 0 q
        (Distinct-sort_by by_seq (select waiting q.rows) (Distinct-select q.rows d o))
        (All-sort_by (λ r. Waits (own_id r) q.rows) by_seq (select waiting q.rows)
          (Waits-select q.rows q.rows (found-All q.rows d) o))
