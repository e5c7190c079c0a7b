-- ===== src/Router/Lost.antt =====
-- `on_node_lost` and `expire_leases` of scheduler/router.py: the loop of updates by primary key
-- is one pass over the table.
use clique.Prelude.{
  String, ◌≡◌, refl, ap, Bool, true, false, Option, some, List, [], ◌∷◌, ◌++◌, map, arith, All,
  Bool-cases, inl, inr, select, if◌then◌else◌, ◌is◌, is_iff, leb,
}
use mathlib.Core.List.{append_assoc}
use clique.Types.{failed}
use clique.Router.{
  Row, Config, Queue, update, has_id, requeue, lost_result, runs_on, lose, on_node_lost,
}
use clique.Router.Rows.{Absent, Distinct, All-append, id_of}

-- What a lost node does to one of its rows.
abbrev pub fail_or_requeue : Config → Row → Row
fail_or_requeue cfg r =
    if leb cfg.max_attempts r.attempts
    then record r { state = failed; result = some (lost_result r.task_id) }
    else requeue r

abbrev pub has_budget : Config → Row → Bool
has_budget cfg r = if leb cfg.max_attempts r.attempts then false else true

-- An update by the identifier of one row changes that row alone.
update_one :
    (f : Row → Row) (pre : List Row) (r : Row) (rs : List Row)
    → All (λ s. (r.task_id is s.task_id) ≡ false) pre
    → Absent id_of r.task_id rs
    → update (has_id r.task_id) f (pre ++ r ∷ rs) ≡ pre ++ f r ∷ rs
unfolding update
update_one f [] r rs a b =
    rw ((is_iff r.task_id r.task_id).1 refl) (ap (λ l. f r ∷ l) (untouched rs b))
  where
    untouched : (l : List Row) → Absent id_of r.task_id l → update (has_id r.task_id) f l ≡ l
    untouched [] h = refl
    untouched (s ∷ l) (h, k) = rw h (ap (◌∷◌ s) (untouched l k))
update_one f (s ∷ pre) r rs (h, a) b =
    ground
      (arith, is_iff r.task_id s.task_id, is_iff s.task_id r.task_id, update_one f pre r rs a b)

one_more : (pre rs : List Row) (r : Row) → (pre ++ r ∷ []) ++ rs ≡ pre ++ r ∷ rs
one_more pre rs r = append_assoc pre (r ∷ []) rs

-- The rows still to be visited have identifiers that the visited ones lack.
abbrev Apart : List Row → List Row → Type 0
Apart pre = All (λ r. All (λ s. (r.task_id is s.task_id) ≡ false) pre)

Apart-extend :
    (pre : List Row) (x : Row) (rs : List Row)
    → Absent id_of x.task_id rs
    → Apart pre rs
    → Apart (pre ++ x ∷ []) rs
Apart-extend pre x [] d a = tt
Apart-extend pre x (s ∷ rs) (d, ds) (a, more) =
    (All-append _ pre x a d, Apart-extend pre x rs ds more)

abbrev visited : Config → (Row → Bool) → List Row → List Row → List String × List Row
visited cfg sel rs pre = (
  map id_of (select (has_budget cfg) (select sel rs)),
  pre ++ update sel (fail_or_requeue cfg) rs,
)

-- The loop, after the rows of `pre`, does to the rest what one pass does.
lose-eq :
    (cfg : Config) (sel : Row → Bool) (rs pre : List Row)
    → Distinct id_of rs
    → Apart pre rs
    → lose cfg (select sel rs) (pre ++ rs) ≡ visited cfg sel rs pre
unfolding lose update
lose-eq cfg sel [] pre d a = refl
lose-eq cfg sel (r ∷ rs) pre (d, ds) (a, more) =
    let next : (x : Row)
        → x.task_id ≡ r.task_id
        → lose cfg (select sel rs) (pre ++ x ∷ rs) ≡ visited cfg sel rs (pre ++ x ∷ []) =
      λ x e.
        rw (← one_more pre rs x)
          (lose-eq cfg sel rs (pre ++ x ∷ []) ds (Apart-extend pre x rs (rw e d) more)) in
    let failure = record r { state = failed; result = some (lost_result r.task_id) } in
    elim (Bool-cases (sel r)) [
      | inr skip ↦ rw (skip, next r refl, one_more)
      | inl hit ↦ elim (Bool-cases (leb cfg.max_attempts r.attempts)) [
        | inl over ↦ rw (hit, over, update_one _ pre r rs a d, next failure refl, one_more)
        | inr under ↦ rw (hit, under, update_one _ pre r rs a d, next (requeue r) refl, one_more)
      ]
    ]

-- On a table whose identifiers are distinct, losing a node gives each of its running tasks its
-- outcome in one pass, reports exactly those that keep an attempt, and changes no other row.
pub on_node_lost-pass :
    (cfg : Config) (node : Option String) (q : Queue)
    → Distinct id_of q.rows
    → on_node_lost cfg node q ≡ (
      map id_of (select (has_budget cfg) (select (runs_on node) q.rows)),
      record q { rows = update (runs_on node) (fail_or_requeue cfg) q.rows },
    )
unfolding on_node_lost
on_node_lost-pass cfg node q d =
    let e : lose cfg (select (runs_on node) q.rows) q.rows ≡ visited cfg (runs_on node) q.rows [] =
      lose-eq cfg (runs_on node) q.rows [] d (nothing q.rows) in
    λ i. ((e i).0, record q { rows = (e i).1 })
  where
    nothing : (rs : List Row) → Apart [] rs
    nothing [] = tt
    nothing (r ∷ rs) = (tt, nothing rs)
