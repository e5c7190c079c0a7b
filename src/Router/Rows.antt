-- ===== src/Router/Rows.antt =====
-- The table of tasks: how `find_row` and the predicates on rows meet a pass of `update`.
use clique.Prelude.{
  String, ◌≡◌, refl, ◌⊎◌, Bool, true, false, Option, none, some, List, [], ◌∷◌, ◌++◌, arith, All,
  Bool-cases, inl, inr, if◌then◌else◌, ◌is◌, is_iff,
}
use clique.Router.{Row, find_row, find_key, update, has_id}

-- No row has the value under the key.
abbrev pub Absent : (Row → String) → String → List Row → Type 0
Absent key k rows = All (λ r. (key r is k) ≡ false) rows

-- No two rows have the same value under the key.
abbrev pub Distinct : (Row → String) → List Row → Type 0
Distinct key [] = Unit
Distinct key (r ∷ rs) = Absent key (key r) rs × Distinct key rs

abbrev pub id_of : Row → String
id_of r = r.task_id

abbrev pub key_of : Row → String
key_of r = r.request.idempotency_key

abbrev pub when : (Row → Bool) → (Row → Row) → Row → Row
when p f r = if p r then f r else r

abbrev pub map_row : (Row → Row) → Option Row → Option Row
map_row f none = none
map_row f (some r) = some (f r)

pub find_row-update :
    (p : Row → Bool) (f : Row → Row)
    → ((r : Row) → (f r).task_id ≡ r.task_id)
    → (tid : String) (rows : List Row)
    → find_row tid (update p f rows) ≡ map_row (when p f) (find_row tid rows)
unfolding find_row update
find_row-update p f same tid [] = refl
find_row-update p f same tid (r ∷ rs) = ground (arith, same r, find_row-update p f same tid rs)

pub find_row-has_id :
    (tid : String) (rows : List Row) {r : Row} → find_row tid rows ≡ some r → r.task_id ≡ tid
unfolding find_row
find_row-has_id tid [] h = ground arith
find_row-has_id tid (s ∷ rs) {r} h =
    ground (arith, find_row-has_id tid rs {r = r}, is_iff s.task_id tid)

pub find_row-append :
    (tid : String) (rows : List Row) (new : Row) {r : Row}
    → find_row tid rows ≡ some r
    → find_row tid (rows ++ new ∷ []) ≡ some r
unfolding find_row
find_row-append tid [] new h = ground arith
find_row-append tid (s ∷ rs) new {r} h = ground (arith, find_row-append tid rs new {r = r})

pub All-update {ℓ} :
    (P : Row → Type ℓ) (p : Row → Bool) (f : Row → Row)
    → ((r : Row) → p r ≡ true → P r → P (f r))
    → (rows : List Row) → All P rows
    → All P (update p f rows)
unfolding update
All-update P p f keep [] h = tt
All-update P p f keep (r ∷ rs) (h, hs) = (head (Bool-cases (p r)), All-update P p f keep rs hs)
  where
    head : (p r ≡ true) ⊎ (p r ≡ false) → P (if p r then f r else r)
    head (inl e) = rw e (keep r e h)
    head (inr e) = rw e h

pub All-append {ℓ} :
    (P : Row → Type ℓ) (rows : List Row) (new : Row) → All P rows → P new → All P (rows ++ new ∷ [])
All-append P [] new h k = (k, tt)
All-append P (r ∷ rs) new h k = (h.0, All-append P rs new h.1 k)

pub All-find {ℓ} :
    (P : Row → Type ℓ) (tid : String) (rows : List Row) {r : Row}
    → find_row tid rows ≡ some r
    → All P rows
    → P r
unfolding find_row
All-find P tid [] h a = ground arith
All-find P tid (s ∷ rs) {r} h a = elim (Bool-cases (s.task_id is tid)) [
  | inl e ↦ let same : s ≡ r = ground arith in rw (← same) a.0
  | inr e ↦ All-find P tid rs (ground arith) a.1
]

-- Where identifiers are distinct, an update by identifier touches the row that is found.
pub All-update_found {ℓ} :
    (P : Row → Type ℓ) (f : Row → Row) (tid : String) (rows : List Row) {r : Row}
    → find_row tid rows ≡ some r
    → P (f r)
    → All P rows
    → Distinct id_of rows
    → All P (update (has_id tid) f rows)
unfolding find_row update
All-update_found P f tid [] h k a d = tt
All-update_found P f tid (s ∷ rs) {r} h k a (d, ds) = elim (Bool-cases (s.task_id is tid)) [
  | inl e ↦
      let same : s ≡ r = ground arith in
      let sid : s.task_id ≡ tid = (is_iff s.task_id tid).0 e in rw e (rw same k, rest sid rs d a.1)
  | inr e ↦ rw e (a.0, All-update_found P f tid rs (ground arith) k a.1 ds)
]
  where
    rest :
        s.task_id ≡ tid
        → (l : List Row) → Absent id_of s.task_id l
        → All P l
        → All P (update (has_id tid) f l)
    rest e [] b c = tt
    rest e (x ∷ l) (b, bs) (c, cs) =
        let other : (x.task_id is tid) ≡ false = rw (← e) b in rw other (c, rest e l bs cs)

-- A miss in the lookup is absence, under each of the table's two keys.
pub find_row-Absent :
    (tid : String) (rows : List Row) → find_row tid rows ≡ none → Absent id_of tid rows
unfolding find_row
find_row-Absent tid [] h = tt
find_row-Absent tid (s ∷ rs) h = (ground arith, find_row-Absent tid rs (ground arith))

pub find_key-Absent : (k : String) (rows : List Row) → find_key k rows ≡ none → Absent key_of k rows
unfolding find_key
find_key-Absent k [] h = tt
find_key-Absent k (s ∷ rs) h = (ground arith, find_key-Absent k rs (ground arith))

module _ (key : Row → String) where
  pub Distinct-update :
      (p : Row → Bool) (f : Row → Row)
      → ((r : Row) → key (f r) ≡ key r)
      → (rows : List Row) → Distinct key rows
      → Distinct key (update p f rows)
  unfolding update
  Distinct-update p f same [] d = tt
  Distinct-update p f same (r ∷ rs) (a, d) = (
    rw (when_same r) (All-update _ p f (λ s _ h. rw (same s) h) rs a),
    Distinct-update p f same rs d,
  )
    where
      when_same : (s : Row) → key (if p s then f s else s) ≡ key s
      when_same s = ground (arith, same s)

  pub Distinct-append :
      (rows : List Row) (new : Row)
      → Absent key (key new) rows
      → Distinct key rows
      → Distinct key (rows ++ new ∷ [])
  Distinct-append [] new a d = (tt, tt)
  Distinct-append (r ∷ rs) new (a, more) (d, ds) = (
    All-append _ rs new d (ground (arith, is_iff (key r) (key new), is_iff (key new) (key r))),
    Distinct-append rs new more ds,
  )
