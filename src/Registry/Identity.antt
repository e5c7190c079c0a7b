-- ===== src/Registry/Identity.antt =====
-- scheduler/registry.py: a node's join order, role and key through the calls that change the roster.
use clique.Prelude.{
  ℕ, String, ◌≡◌, refl, sym, ap, ◌∙◌, true, false, Option, none, some, List, [], ◌∷◌, arith, All,
  map, leb, if◌then◌else◌, Bool-cases, Option-cases, inl, inr, ◌is◌, is_iff,
}
use mathlib.Core.Option.{some-injective}
use clique.Prelude.Sort.{sort_by, insert_by}
use clique.Types.{NodeStatus, NodeInfo}
use clique.Registry.{
  NodeRow, Joining, Beat, find_node, order_of, put_row, save, list_nodes, rejoined, register,
  change, beaten, on_heartbeat, with_status, set_status, left, remove, is_stale, gone, mark_stale,
  mark_offline_stale,
}

module _ {F : Type 0} where
  find_node-put_row :
      (x : String) (r : NodeRow F) (rows : List (NodeRow F))
      → find_node x (put_row r rows) ≡ (if r.info.node_id is x then some r else find_node x rows)
  unfolding find_node put_row
  find_node-put_row x r [] = ground arith
  find_node-put_row x r (s ∷ rows) = ground (
    arith,
    find_node-put_row x r rows,
    is_iff s.info.node_id r.info.node_id,
    is_iff s.info.node_id x,
    is_iff r.info.node_id x,
  )

  find_node-id :
      (x : String) (rows : List (NodeRow F)) {r : NodeRow F}
      → find_node x rows ≡ some r
      → r.info.node_id ≡ x
  unfolding find_node
  find_node-id x [] h = ground arith
  find_node-id x (s ∷ rows) {r} h =
      ground (arith, find_node-id x rows {r = r}, is_iff s.info.node_id x)

  -- The information has the role and the key that the row has.
  abbrev pub HasKey : NodeRow F → NodeInfo F → Type 0
  HasKey r n = (n.role ≡ r.info.role) × (n.public_key ≡ r.info.public_key)

  -- The roster has the node, with the join order, the role and the key of the row.
  abbrev pub Keeps : String → NodeRow F → List (NodeRow F) → Type 0
  Keeps x r rows =
      (s : NodeRow F) × ((find_node x rows ≡ some s)
        × ((s.join_order ≡ r.join_order) × HasKey r s.info))

  save-Keeps :
      (x : String) (r : NodeRow F) (n : NodeInfo F) (rows : List (NodeRow F))
      → ((n.node_id is x) ≡ true → HasKey r n)
      → Keeps x r rows
      → Keeps x r (save n rows)
  unfolding save
  save-Keeps x r n rows same (s, (found, (order, key))) = elim (Bool-cases (n.node_id is x)) [
    | inl e ↦
        let here : n.node_id ≡ x = (is_iff n.node_id x).0 e in
        let at_x : find_node n.node_id rows ≡ some s = rw here found in
        (
          record { join_order = order_of n.node_id rows; info = n },
          (find_node-put_row x _ rows ∙ rw e refl, (rw (order_of, at_x) order, same e)),
        )
    | inr e ↦ (s, (find_node-put_row x _ rows ∙ rw e found, (order, key)))
  ]

  -- A change of a node that leaves its identifier, role and key alone.
  change-Keeps :
      (f : NodeInfo F → NodeInfo F)
      → ((n : NodeInfo F) → (f n).node_id ≡ n.node_id)
      → ((n : NodeInfo F) → (f n).role ≡ n.role)
      → ((n : NodeInfo F) → (f n).public_key ≡ n.public_key)
      → (x nid : String) (r : NodeRow F) (rows : List (NodeRow F)) → Keeps x r rows
      → Keeps x r (change f nid rows)
  change-Keeps f id role key x nid r rows (s, (found, (order, (k, l)))) =
      elim (Option-cases (find_node nid rows)) [
        | inl e ↦ rw (change, e) (s, (found, (order, (k, l))))
        | inr (t, e) ↦
            rw (change, e)
              (save-Keeps x r (f t.info) rows (λ h. same t e h) (s, (found, (order, (k, l)))))
      ]
    where
      same :
          (t : NodeRow F)
          → find_node nid rows ≡ some t
          → ((f t.info).node_id is x) ≡ true
          → HasKey r (f t.info)
      same t e h =
          let at_x : nid ≡ x =
            sym (find_node-id nid rows e) ∙ (sym (id t.info) ∙ (is_iff _ _).0 h) in
          let both : some t ≡ some s = sym e ∙ (rw at_x found) in
          let eq : t ≡ s = some-injective _ _ both in
          (
            role t.info ∙ (ap (λ (u : NodeRow F). u.info.role) eq ∙ k),
            key t.info ∙ (ap (λ (u : NodeRow F). u.info.public_key) eq ∙ l),
          )

  -- One call that changes the roster, but for the deletion of a node.
  pub data Step (rows : List (NodeRow F)) : List (NodeRow F) → Type 0 where
    joined : (now : ℕ) (j : Joining F) → Step rows (register now j rows).1
    beat : (now : ℕ) (nid : String) (b : Beat F) → Step rows (on_heartbeat now nid b rows)
    changed :
        (nid : String) (status : NodeStatus) (task : Option String)
        → Step rows (set_status nid status task rows)
    went_stale :
        (now older_than : ℕ) (age : Option (String → ℕ))
        → Step rows (mark_offline_stale now older_than age rows).1
    removed : (now duration : ℕ) (nid : String) → Step rows (remove now nid duration rows)

  rejoined-Same :
      (now : ℕ) (j : Joining F) (n : NodeInfo F)
      → ((rejoined now j n).node_id ≡ n.node_id)
        × (((rejoined now j n).role ≡ n.role) × ((rejoined now j n).public_key ≡ n.public_key))
  unfolding rejoined
  rejoined-Same now j n = elim (Option-cases j.model) [
    | inl e ↦ rw e (refl, (refl, refl))
    | inr (m, e) ↦ rw e (refl, (refl, refl))
  ]

  register-Keeps :
      (now : ℕ) (j : Joining F) (x : String) (r : NodeRow F) (rows : List (NodeRow F))
      → Keeps x r rows
      → Keeps x r (register now j rows).1
  unfolding register
  register-Keeps now j x r rows k = elim (Option-cases (find_node j.node_id rows)) [
    | inr (t, e) ↦
        let by_change =
          change-Keeps (rejoined now j) (λ n. (rejoined-Same now j n).0)
            (λ n. (rejoined-Same now j n).1.0) (λ n. (rejoined-Same now j n).1.1) x j.node_id r rows
            k in
        rw (register, e) (rw (change, e) at by_change)
    | inl e ↦
        let (s, (found, rest)) = k in
        rw (register, e) (s, (find_node-put_row x _ rows ∙ rw (apart e found) found, rest))
  ]
    where
      apart :
          {s : NodeRow F}
          → find_node j.node_id rows ≡ none
          → find_node x rows ≡ some s
          → (j.node_id is x) ≡ false
      apart {s} e f = ground (arith, is_iff j.node_id x)

  -- No two rows have one identifier.
  abbrev pub NoId : String → List (NodeRow F) → Type 0
  NoId k rows = All (λ r. (r.info.node_id is k) ≡ false) rows

  abbrev pub DistinctNodes : List (NodeRow F) → Type 0
  DistinctNodes [] = Unit
  DistinctNodes (r ∷ rows) = NoId r.info.node_id rows × DistinctNodes rows

  NoId-put_row :
      (k : String) (r : NodeRow F) (rows : List (NodeRow F))
      → (r.info.node_id is k) ≡ false
      → NoId k rows
      → NoId k (put_row r rows)
  unfolding put_row
  NoId-put_row k r [] h a = (h, tt)
  NoId-put_row k r (s ∷ rows) h (a, more) = elim (Bool-cases (s.info.node_id is r.info.node_id)) [
    | inl e ↦ rw e (NoId-put_row k r rows h more)
    | inr e ↦ rw e (a, NoId-put_row k r rows h more)
  ]

  put_row-DistinctNodes :
      (r : NodeRow F) (rows : List (NodeRow F))
      → DistinctNodes rows
      → DistinctNodes (put_row r rows)
  unfolding put_row
  put_row-DistinctNodes r [] d = (tt, tt)
  put_row-DistinctNodes r (s ∷ rows) (a, d) = elim (Bool-cases (s.info.node_id is r.info.node_id)) [
    | inl e ↦ rw e (put_row-DistinctNodes r rows d)
    | inr e ↦ rw e (NoId-put_row s.info.node_id r rows (other e) a, put_row-DistinctNodes r rows d)
  ]
    where
      other :
          (s.info.node_id is r.info.node_id) ≡ false → (r.info.node_id is s.info.node_id) ≡ false
      other e =
          ground (arith, is_iff s.info.node_id r.info.node_id, is_iff r.info.node_id s.info.node_id)

  change-DistinctNodes :
      (f : NodeInfo F → NodeInfo F) (nid : String) (rows : List (NodeRow F))
      → DistinctNodes rows
      → DistinctNodes (change f nid rows)
  unfolding save
  change-DistinctNodes f nid rows d = elim (Option-cases (find_node nid rows)) [
    | inl e ↦ rw (change, e) d
    | inr (t, e) ↦ rw (change, e) (put_row-DistinctNodes _ rows d)
  ]

  -- All rows with an identifier are the one that the lookup finds.
  rows-HasKey :
      (x : String) (s : NodeRow F) (rows : List (NodeRow F))
      → DistinctNodes rows
      → find_node x rows ≡ some s
      → All (λ t. (t.info.node_id is x) ≡ true → HasKey s t.info) rows
  unfolding find_node
  rows-HasKey x s [] d h = tt
  rows-HasKey x s (t ∷ rows) (a, d) h = elim (Bool-cases (t.info.node_id is x)) [
    | inl e ↦
        let yes : some t ≡ some s = rw e at h in
        let same : t ≡ s = some-injective _ _ yes in
        let here : t.info.node_id ≡ x = (is_iff _ _).0 e in
        (
          (λ k. (
            ap (λ (u : NodeRow F). u.info.role) same,
            ap (λ (u : NodeRow F). u.info.public_key) same,
          )),
          none_else (rw (← here) a),
        )
    | inr e ↦ ((λ k. let no : true ≡ false = sym k ∙ e in cc), rows-HasKey x s rows d (rw e at h))
  ]
    where
      none_else : NoId x rows → All (λ u. (u.info.node_id is x) ≡ true → HasKey s u.info) rows
      none_else b = off rows b
        where
          off :
              (l : List (NodeRow F))
              → NoId x l
              → All (λ u. (u.info.node_id is x) ≡ true → HasKey s u.info) l
          off [] b = tt
          off (u ∷ l) (b, bs) = ((λ k. let no : true ≡ false = sym k ∙ b in cc), off l bs)

  All-insert_by {ℓ} :
      (P : NodeRow F → Type ℓ) (key : NodeRow F → ℕ) (r : NodeRow F) (rows : List (NodeRow F))
      → P r
      → All P rows
      → All P (insert_by key r rows)
  unfolding insert_by
  All-insert_by P key r [] h a = (h, tt)
  All-insert_by P key r (s ∷ rows) h (a, more) = elim (Bool-cases (leb (key r) (key s))) [
    | inl e ↦ rw e (h, (a, more))
    | inr e ↦ rw e (a, All-insert_by P key r rows h more)
  ]

  All-sort_by {ℓ} :
      (P : NodeRow F → Type ℓ) (key : NodeRow F → ℕ) (rows : List (NodeRow F))
      → All P rows
      → All P (sort_by key rows)
  unfolding sort_by
  All-sort_by P key [] h = tt
  All-sort_by P key (r ∷ rows) (h, hs) = All-insert_by P key r _ h (All-sort_by P key rows hs)

  All-infos {ℓ} :
      (P : NodeInfo F → Type ℓ) (rows : List (NodeRow F))
      → All (λ r. P r.info) rows
      → All P (map (λ r. r.info) rows)
  All-infos P [] h = tt
  All-infos P (r ∷ rows) (h, hs) = (h, All-infos P rows hs)

  mark_stale-Keeps :
      (now older_than : ℕ) (age : Option (String → ℕ)) (x : String) (r : NodeRow F)
      (ns : List (NodeInfo F)) (rows : List (NodeRow F))
      → All (λ n. (n.node_id is x) ≡ true → HasKey r n) ns
      → Keeps x r rows
      → Keeps x r (mark_stale now older_than age ns rows).1
  unfolding mark_stale
  mark_stale-Keeps now older_than age x r [] rows a k = k
  mark_stale-Keeps now older_than age x r (n ∷ ns) rows (a, more) k =
      elim (Bool-cases (is_stale now older_than n)) [
        | inl e ↦
            rw (mark_stale, e)
              (mark_stale-Keeps now older_than age x r ns (save (gone now age n) rows) more
                (save-Keeps x r (gone now age n) rows a k))
        | inr e ↦ rw (mark_stale, e) (mark_stale-Keeps now older_than age x r ns rows more k)
      ]

  mark_stale-DistinctNodes :
      (now older_than : ℕ) (age : Option (String → ℕ)) (ns : List (NodeInfo F))
      (rows : List (NodeRow F))
      → DistinctNodes rows
      → DistinctNodes (mark_stale now older_than age ns rows).1
  unfolding mark_stale save
  mark_stale-DistinctNodes now older_than age [] rows d = d
  mark_stale-DistinctNodes now older_than age (n ∷ ns) rows d =
      elim (Bool-cases (is_stale now older_than n)) [
        | inl e ↦
            rw (mark_stale, e)
              (mark_stale-DistinctNodes now older_than age ns _ (put_row-DistinctNodes _ rows d))
        | inr e ↦ rw (mark_stale, e) (mark_stale-DistinctNodes now older_than age ns rows d)
      ]

  register-DistinctNodes :
      (now : ℕ) (j : Joining F) (rows : List (NodeRow F))
      → DistinctNodes rows
      → DistinctNodes (register now j rows).1
  unfolding register save
  register-DistinctNodes now j rows d = elim (Option-cases (find_node j.node_id rows)) [
    | inl e ↦ rw (register, e) (put_row-DistinctNodes _ rows d)
    | inr (t, e) ↦ rw (register, e) (put_row-DistinctNodes _ rows d)
  ]

  weaken-HasKey :
      (x : String) (r s : NodeRow F)
      → HasKey r s.info
      → (l : List (NodeRow F)) → All (λ t. (t.info.node_id is x) ≡ true → HasKey s t.info) l
      → All (λ t. (t.info.node_id is x) ≡ true → HasKey r t.info) l
  weaken-HasKey x r s key [] a = tt
  weaken-HasKey x r s (k, l) (t ∷ ts) (a, more) =
      ((λ e. ((a e).0 ∙ k, (a e).1 ∙ l)), weaken-HasKey x r s (k, l) ts more)

  listed-HasKey :
      (x : String) (r s : NodeRow F) (rows : List (NodeRow F))
      → DistinctNodes rows
      → find_node x rows ≡ some s
      → HasKey r s.info
      → All (λ n. (n.node_id is x) ≡ true → HasKey r n) (list_nodes rows)
  unfolding list_nodes
  listed-HasKey x r s rows d found key =
      All-infos (λ n. (n.node_id is x) ≡ true → HasKey r n) _
        (All-sort_by (λ t. (t.info.node_id is x) ≡ true → HasKey r t.info) (λ t. t.join_order) rows
          (weaken-HasKey x r s key rows (rows-HasKey x s rows d found)))

  -- What every call keeps: distinct identifiers, and the identity of a node.
  Step-Keeps :
      (x : String) (r : NodeRow F) {rows rows' : List (NodeRow F)}
      → Step rows rows'
      → DistinctNodes rows
      → Keeps x r rows
      → DistinctNodes rows' × Keeps x r rows'
  unfolding register on_heartbeat set_status remove mark_offline_stale list_nodes
  Step-Keeps x r {rows} (joined now j) d k =
      (register-DistinctNodes now j rows d, register-Keeps now j x r rows k)
  Step-Keeps x r {rows} (beat now nid b) d k = (
    change-DistinctNodes (beaten now b) nid rows d,
    change-Keeps (beaten now b) (λ n. refl) (λ n. refl) (λ n. refl) x nid r rows k,
  )
  Step-Keeps x r {rows} (changed nid status task) d k = (
    change-DistinctNodes (with_status status task) nid rows d,
    change-Keeps (with_status status task) (λ n. ground arith) (λ n. ground arith)
        (λ n. ground arith) x nid r rows k,
  )
  Step-Keeps x r {rows} (removed now duration nid) d k = (
    change-DistinctNodes (left now duration) nid rows d,
    change-Keeps (left now duration) (λ n. refl) (λ n. refl) (λ n. refl) x nid r rows k,
  )
  Step-Keeps x r {rows} (went_stale now older_than age) d (s, (found, (order, (k, l)))) = (
    mark_stale-DistinctNodes now older_than age (list_nodes rows) rows d,
    mark_stale-Keeps now older_than age x r (list_nodes rows) rows
        (listed-HasKey x r s rows d found (k, l)) (s, (found, (order, (k, l)))),
  )

  pub data Reach (rows : List (NodeRow F)) : List (NodeRow F) → Type 0 where
    here : Reach rows rows
    next :
        {rows' rows'' : List (NodeRow F)} → Reach rows rows' → Step rows' rows'' → Reach rows rows''

  Reach-both :
      (x : String) (r : NodeRow F) {rows rows' : List (NodeRow F)}
      → Reach rows rows'
      → DistinctNodes rows
      → Keeps x r rows
      → DistinctNodes rows' × Keeps x r rows'
  Reach-both x r here d k = (d, k)
  Reach-both x r (next before step) d k =
      let (d', k') = Reach-both x r before d k in Step-Keeps x r step d' k'

  -- From a roster without duplicates, whatever joins, rejoins, heartbeats, changes of status,
  -- departures and stale nodes follow, a node that is on the roster stays there with its join order,
  -- role and public key.
  pub Reach-Keeps :
      (x : String) (r : NodeRow F) {rows rows' : List (NodeRow F)}
      → DistinctNodes rows
      → find_node x rows ≡ some r
      → Reach rows rows'
      → Keeps x r rows'
  Reach-Keeps x r d found reach = (Reach-both x r reach d (r, (found, (refl, (refl, refl))))).1
