-- ===== src/Schedule/Slots.antt =====
-- scheduler/router.py: `schedule_pending` and the slots of the nodes.
use Prim.Native.Nat.{max}
use clique.Prelude.{
  ℕ, suc, String, ◌+◌, ◌≤◌, ◌<◌, ◌≡◌, refl, subst, Bool, true, false, not, Option, none, some, List,
  [], ◌∷◌, arith, All, map, select, leb, Bool-cases, Option-cases, inl, inr, ◌is◌, is_iff,
}
use mathlib.Core.Option.{some-injective}
use clique.Types.{TaskRequest, Session, Float, NodeInfo}
use clique.Context
use clique.Router.{Row, Config, Queue, update, has_id, assign}
use clique.Router.Rows.{Absent, Distinct, Distinct-update, id_of}
use clique.Schedule.Score.{placement, out_of_reach}
use clique.Schedule.{
  Ready, Scored, slots_of, ready_nodes, works_on, count_on, bump, best_of, in_cluster, weigh,
  choose, still_ready, place_rows, has_slot, first_best, schedule_pending, lease_of,
}

All-select {ℓ κ} :
    {A : Type ℓ} (P : A → Type κ) (p : A → Bool) (xs : List A) → All P xs → All P (select p xs)
All-select P p [] h = tt
All-select P p (x ∷ xs) (h, hs) = elim (Bool-cases (p x)) [
  | inl e ↦ rw e (h, All-select P p xs hs)
  | inr e ↦ rw e (All-select P p xs hs)
]

-- What holds of the elements that pass the test.
pub All-selected {ℓ κ} :
    {A : Type ℓ} (P Q : A → Type κ) (p : A → Bool)
    → ((x : A) → p x ≡ true → P x → Q x)
    → (xs : List A) → All P xs
    → All Q (select p xs)
All-selected P Q p f [] h = tt
All-selected P Q p f (x ∷ xs) (h, hs) = elim (Bool-cases (p x)) [
  | inl e ↦ rw e (f x e h, All-selected P Q p f xs hs)
  | inr e ↦ rw e (All-selected P Q p f xs hs)
]

pub All-weaken {ℓ κ} :
    {A : Type ℓ} (P Q : A → Type κ) → ((x : A) → P x → Q x) → (xs : List A) → All P xs → All Q xs
All-weaken P Q f [] h = tt
All-weaken P Q f (x ∷ xs) (h, hs) = (f x h, All-weaken P Q f xs hs)

pub All-map {ℓ κ} :
    {A B : Type ℓ} (P : B → Type κ) (f : A → B) (xs : List A)
    → All (λ x. P (f x)) xs
    → All P (map f xs)
All-map P f [] h = tt
All-map P f (x ∷ xs) (h, hs) = (h, All-map P f xs hs)

-- A pass by identifier moves at most one row onto a node, where identifiers are distinct.
count_on-Absent :
    (nid tid : String) (f : Row → Row) (rows : List Row)
    → Absent id_of tid rows
    → count_on nid (update (has_id tid) f rows) ≡ count_on nid rows
unfolding count_on update
count_on-Absent nid tid f [] a = refl
count_on-Absent nid tid f (r ∷ rs) (a, more) = rw (a, count_on-Absent nid tid f rs more) refl

count_on-update :
    (nid tid : String) (f : Row → Row) (rows : List Row)
    → Distinct id_of rows
    → count_on nid (update (has_id tid) f rows) ≤ count_on nid rows + 1
unfolding count_on update
count_on-update nid tid f [] d = omega arith
count_on-update nid tid f (r ∷ rs) (a, d) = elim (Bool-cases (r.task_id is tid)) [
  | inl e ↦
      let same : r.task_id ≡ tid = (is_iff r.task_id tid).0 e in
      let rest = count_on-Absent nid tid f rs (rw (← same) a) in rw (e, rest) (ground arith)
  | inr e ↦ let rest = count_on-update nid tid f rs d in rw e (ground arith)
]

-- A pass that moves rows to another node moves none onto this one.
count_on-elsewhere :
    (nid : String) (p : Row → Bool) (f : Row → Row)
    → ((r : Row) → works_on nid (f r) ≡ false)
    → (rows : List Row) → count_on nid (update p f rows) ≤ count_on nid rows
unfolding count_on update
count_on-elsewhere nid p f off [] = omega arith
count_on-elsewhere nid p f off (r ∷ rs) = elim (Bool-cases (p r)) [
  | inl e ↦ let rest = count_on-elsewhere nid p f off rs in rw (e, off r) (ground arith)
  | inr e ↦ let rest = count_on-elsewhere nid p f off rs in rw e (ground arith)
]

count_on-assign :
    (nid tid node attempt : String) (lease : ℕ) (q : Queue)
    → Distinct id_of q.rows
    → count_on nid (assign tid node attempt lease q).rows ≤ bump node (λ x. count_on x q.rows) nid
unfolding assign
count_on-assign nid tid node attempt lease q d = elim (Bool-cases (nid is node)) [
  | inl e ↦ rw e (count_on-update nid tid _ q.rows d)
  | inr e ↦ rw e (count_on-elsewhere nid (has_id tid) _ (λ r. other e) q.rows)
]
  where
    other : (nid is node) ≡ false → (node is nid) ≡ false
    other e = ground (arith, is_iff nid node, is_iff node nid)

assign-Distinct :
    (tid node attempt : String) (lease : ℕ) (q : Queue)
    → Distinct id_of q.rows
    → Distinct id_of (assign tid node attempt lease q).rows
unfolding assign
assign-Distinct tid node attempt lease q d =
    Distinct-update id_of (has_id tid) _ (λ r. refl) q.rows d

-- The counts that the loop carries bound the table's, also after an assignment.
assign-counted :
    (tid node attempt : String) (lease : ℕ) (q : Queue) (active : String → ℕ)
    → Distinct id_of q.rows
    → ((x : String) → count_on x q.rows ≤ active x)
    → (x : String) → count_on x (assign tid node attempt lease q).rows ≤ bump node active x
assign-counted tid node attempt lease q active d c x =
    let here = count_on-assign x tid node attempt lease q d in
    elim (Bool-cases (x is node)) [
      | inl e ↦ let at_node = rw e at here in rw e (omega (arith, c x))
      | inr e ↦ let elsewhere = rw e at here in rw e (omega (arith, c x))
    ]

-- A count that is allowed one more task on a node with room is within the limit or the old count.
within-bump :
    (nid node : String) (active cap : String → ℕ) {m : ℕ}
    → active node < cap node
    → m ≤ max (cap nid) (bump node active nid)
    → m ≤ max (cap nid) (active nid)
within-bump nid node active cap h k = elim (Bool-cases (nid is node)) [
  | inl e ↦
      let same : nid ≡ node = (is_iff nid node).0 e in
      let room : active nid < cap nid = rw same h in let bound = rw e at k in omega arith
  | inr e ↦ rw e at k
]

module _ (fl : Float) where
  open fl use {F, lt, le}

  -- The best candidate is one of the candidates.
  best_of-All {κ} :
      (P : Scored F → Type κ) (top : Scored F) (rest : List (Scored F))
      → P top
      → All P rest
      → P (best_of fl top rest)
  unfolding best_of
  best_of-All P top [] h hs = h
  best_of-All P top (s ∷ rest) h (k, ks) = elim (Bool-cases (lt top.value s.value)) [
    | inl e ↦ rw e (best_of-All P s rest k ks)
    | inr e ↦ rw e (best_of-All P top rest h ks)
  ]

  module _ (find : String → Option Session) (contexts : Option Context.Store) where
    pub first_best-All {κ} :
        (P : Scored F → Type κ) (l : List (Scored F)) {s : Scored F}
        → first_best fl find contexts l ≡ some s
        → All P l
        → P s
    first_best-All P [] h a = ground arith
    first_best-All P (x ∷ rest) {s} h (a, as_) =
        elim (Bool-cases (le (best_of fl x rest).value (out_of_reach fl))) [
          | inl e ↦ let no : none ≡ some s = rw e at h in cc
          | inr e ↦
              let yes : some (best_of fl x rest) ≡ some s = rw e at h in
              subst P (some-injective _ _ yes) (best_of-All P x rest a as_)
        ]

    choose-All {κ} :
        (P : Ready F → Type κ) (request : TaskRequest) (ready : List (Ready F)) {s : Scored F}
        → choose fl find contexts request ready ≡ some s
        → All P ready
        → P s.node
    unfolding choose
    choose-All P request ready h a =
        first_best-All (λ (s : Scored F). P s.node) _ h
          (All-map (λ (s : Scored F). P s.node) (weigh fl find contexts request) _
            (All-select P (in_cluster fl (placement find request).0) ready a))

    module _ (cfg : Config) (fresh : ℕ → String) (now : ℕ) (cap : String → ℕ) where
      -- A node that can take a task: it is below its slots, and they are within its limit.
      abbrev IsFree : (String → ℕ) → Ready F → Type 0
      IsFree active n = (active n.0.node_id < cap n.0.node_id) × (slots_of n.1 ≤ cap n.0.node_id)

      still_ready-IsFree :
          (s : Scored F) (active : String → ℕ) (ready : List (Ready F))
          → IsFree active s.node
          → All (IsFree active) ready
          → All
              (IsFree (bump s.node.0.node_id active))
              (still_ready fl find contexts cfg fresh now s (bump s.node.0.node_id active) ready)
      still_ready-IsFree s active ready (lt_cap, le_cap) h =
          let nid = s.node.0.node_id in
          elim (Bool-cases (leb (slots_of s.node.1) (bump nid active nid))) [
            | inl full ↦ rw full (
                All-selected (IsFree active) (IsFree (bump nid active))
                  (λ n. not (n.0.node_id is nid)) (λ n other k. off n other k) ready h)
            | inr room ↦
                rw room (
                  All-weaken (IsFree active) (IsFree (bump nid active)) (λ n k. on room n k) ready
                    h)
          ]
        where
          off :
              (n : Ready F)
              → not (n.0.node_id is s.node.0.node_id) ≡ true
              → IsFree active n
              → IsFree (bump s.node.0.node_id active) n
          off n e k = ground arith

          below :
              leb (slots_of s.node.1) (bump s.node.0.node_id active s.node.0.node_id) ≡ false
              → suc (active s.node.0.node_id + 1) ≤ cap s.node.0.node_id
          below room =
              let self = (is_iff s.node.0.node_id s.node.0.node_id).1 refl in
              let more : leb (slots_of s.node.1) (active s.node.0.node_id + 1) ≡ false =
                rw self at room in
              ground arith

          on :
              leb (slots_of s.node.1) (bump s.node.0.node_id active s.node.0.node_id) ≡ false
              → (n : Ready F) → IsFree active n
              → IsFree (bump s.node.0.node_id active) n
          on room n k = elim (Bool-cases (n.0.node_id is s.node.0.node_id)) [
            | inl e ↦
                let same : n.0.node_id ≡ s.node.0.node_id = (is_iff _ _).0 e in
                rw e (rw same (below room), k.1)
            | inr e ↦ rw e k
          ]

      place_rows-slots :
          (rows : List Row) (ready : List (Ready F)) (active : String → ℕ) (n : ℕ) (q : Queue)
          → Distinct id_of q.rows
          → ((x : String) → count_on x q.rows ≤ active x)
          → All (IsFree active) ready
          → (nid : String)
          → count_on nid (place_rows fl find contexts cfg fresh now rows ready active n q).1.rows
            ≤ max (cap nid) (active nid)
      unfolding place_rows
      place_rows-slots [] ready active n q d c a nid = omega (arith, c nid)
      place_rows-slots (r ∷ rs) [] active n q d c a nid = omega (arith, c nid)
      place_rows-slots (r ∷ rs) (x ∷ xs) active n q d c a nid =
          elim (Option-cases (choose fl find contexts r.request (x ∷ xs))) [
            | inl e ↦ rw (place_rows, e) (place_rows-slots rs (x ∷ xs) active n q d c a nid)
            | inr (s, e) ↦
                let free = choose-All (IsFree active) r.request (x ∷ xs) e a in
                let node = s.node.0.node_id in
                let q' =
                  assign r.request.task_id node (fresh n)
                    (lease_of fl find contexts cfg fresh now r.request) q in
                let rest =
                  place_rows-slots rs
                    (still_ready fl find contexts cfg fresh now s (bump node active) (x ∷ xs))
                    (bump node active) (n + 1) q' (assign-Distinct _ _ _ _ q d)
                    (assign-counted _ _ _ _ q active d c)
                    (still_ready-IsFree s active (x ∷ xs) free a) nid in
                rw (place_rows, e) (within-bump nid node active cap free.0 rest)
          ]

      -- Where identifiers are distinct, scheduling gives no node more running tasks than the limit on
      -- its model's slots, or than it had before; the limit is any bound on the slots of the nodes
      -- that are ready, by identifier.
      pub schedule_pending-slots :
          (nodes : List (NodeInfo F)) (q : Queue)
          → Distinct id_of q.rows
          → All (λ n. slots_of n.1 ≤ cap n.0.node_id) (ready_nodes nodes)
          → (nid : String)
          → count_on nid (schedule_pending fl find contexts cfg fresh now nodes q).1.rows
            ≤ max (cap nid) (count_on nid q.rows)
      unfolding schedule_pending
      schedule_pending-slots nodes q d a nid =
          place_rows-slots _ _ (λ x. count_on x q.rows) 0 q d (λ x. omega arith)
            (All-selected (λ n. slots_of n.1 ≤ cap n.0.node_id) (IsFree (λ x. count_on x q.rows))
              (has_slot fl find contexts cfg fresh now q.rows) (λ n e k. free n e k)
              (ready_nodes nodes) a)
            nid
        where
          free :
              (n : Ready F)
              → has_slot fl find contexts cfg fresh now q.rows n ≡ true
              → slots_of n.1 ≤ cap n.0.node_id
              → IsFree (λ x. count_on x q.rows) n
          free n e k = ground arith
