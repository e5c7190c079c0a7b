-- ===== src/Context/Append.antt =====
-- scheduler/context_store.py: the optimistic concurrency of `append_turn`.
use clique.Prelude.{
  ℕ, String, ◌+◌, ◌≤◌, ◌≡◌, refl, sym, ap, ◌∙◌, Bool, true, false, none, some, List, [], ◌∷◌, ◌++◌,
  arith, map, select, leb, ◌==◌, Bool-cases, inl, inr, ◌is◌, is_iff, ==_iff, subst,
}
use mathlib.Core.Option.{some-injective}
use clique.Prelude.Sort.{sort_by, insert_by}
use clique.Context.{Turn, TurnRow, Item, Store, latest_version, append_turn, iter_turns}

module _ {ℓ} {A : Type ℓ} (key : A → ℕ) where
  data Below (b : ℕ) : List A → Type ℓ where
    nothing : Below b []
    also : {x : A} {xs : List A} → key x ≤ b → Below b xs → Below b (x ∷ xs)

  insert_by-snoc :
      (y x : A) (zs : List A)
      → key y ≤ key x
      → insert_by key y (zs ++ x ∷ []) ≡ insert_by key y zs ++ x ∷ []
  unfolding insert_by
  insert_by-snoc y x [] h = elim (Bool-cases (leb (key y) (key x))) [
    | inl le ↦ rw le refl
    | inr gt ↦ ground arith
  ]
  insert_by-snoc y x (z ∷ zs) h = elim (Bool-cases (leb (key y) (key z))) [
    | inl le ↦ rw le refl
    | inr gt ↦ rw (gt, insert_by-snoc y x zs h) refl
  ]

  -- What is not below any other goes to the end.
  sort_by-snoc :
      (x : A) (xs : List A)
      → Below (key x) xs
      → sort_by key (xs ++ x ∷ []) ≡ sort_by key xs ++ x ∷ []
  unfolding sort_by insert_by
  sort_by-snoc x [] nothing = refl
  sort_by-snoc x (y ∷ ys) (also h hs) =
      ap (insert_by key y) (sort_by-snoc x ys hs) ∙ insert_by-snoc y x (sort_by key ys) h

module _ (sid : String) where
  mine : TurnRow → Bool
  mine r = r.session_id is sid

  item : TurnRow → Item
  item r = (r.version, r.turn)

  items-snoc :
      (store : Store) (r : TurnRow)
      → (r.session_id is sid) ≡ true
      → map item (select mine (store ++ r ∷ [])) ≡ map item (select mine store) ++ item r ∷ []
  unfolding item mine
  items-snoc [] r h = rw h refl
  items-snoc (s ∷ store) r h = elim (Bool-cases (s.session_id is sid)) [
    | inl e ↦ rw (e, items-snoc store r h) refl
    | inr e ↦ rw (e, items-snoc store r h) refl
  ]

  items-other :
      (store : Store) (r : TurnRow)
      → (r.session_id is sid) ≡ false
      → map item (select mine (store ++ r ∷ [])) ≡ map item (select mine store)
  unfolding item mine
  items-other [] r h = rw h refl
  items-other (s ∷ store) r h = elim (Bool-cases (s.session_id is sid)) [
    | inl e ↦ rw (e, items-other store r h) refl
    | inr e ↦ rw (e, items-other store r h) refl
  ]

  -- No turn has a later version than the latest.
  items-Below :
      (store : Store) (b : ℕ)
      → latest_version sid store ≤ b
      → Below (λ i. i.0) b (map item (select mine store))
  unfolding item mine latest_version
  items-Below [] b h = nothing
  items-Below (s ∷ store) b h = elim (Bool-cases (s.session_id is sid)) [
    | inl e ↦ rw e (also (top e) (items-Below store b (rest e)))
    | inr e ↦ rw e (items-Below store b (skip e))
  ]
    where
      top : (s.session_id is sid) ≡ true → s.version ≤ b
      top e = ground arith

      rest : (s.session_id is sid) ≡ true → latest_version sid store ≤ b
      rest e = ground arith

      skip : (s.session_id is sid) ≡ false → latest_version sid store ≤ b
      skip e = ground arith

  pub latest_version-snoc :
      (store : Store) (r : TurnRow)
      → (r.session_id is sid) ≡ true
      → latest_version sid store ≤ r.version
      → latest_version sid (store ++ r ∷ []) ≡ r.version
  unfolding latest_version
  latest_version-snoc [] r h b = rw h (omega arith)
  latest_version-snoc (s ∷ store) r h b = elim (Bool-cases (s.session_id is sid)) [
    | inl e ↦ rw e (omega (arith, latest_version-snoc store r h (lower e), upper e))
    | inr e ↦ rw e (latest_version-snoc store r h (skip e))
  ]
    where
      lower : (s.session_id is sid) ≡ true → latest_version sid store ≤ r.version
      lower e = ground arith

      upper : (s.session_id is sid) ≡ true → s.version ≤ r.version
      upper e = ground arith

      skip : (s.session_id is sid) ≡ false → latest_version sid store ≤ r.version
      skip e = ground arith

abbrev pub row_of : String → ℕ → Turn → ℕ → TurnRow
row_of sid version turn now = record {
  session_id = sid;
  version = version;
  turn = turn;
  created_at = now;
}

-- An append has the version after the latest, or is a conflict.
pub append_turn-fresh :
    (sid : String) (turn : Turn) (now : ℕ) (store : Store)
    → append_turn sid (latest_version sid store) turn now store
      ≡ some (
        latest_version sid store + 1,
        store ++ row_of sid (latest_version sid store + 1) turn now ∷ [],
      )
unfolding append_turn
append_turn-fresh sid turn now store = rw (same (latest_version sid store)) refl
  where
    same : (n : ℕ) → (n == n) ≡ true
    same n = ground arith

pub append_turn-stale :
    (sid : String) (expected : ℕ) (turn : Turn) (now : ℕ) (store : Store)
    → (expected == latest_version sid store) ≡ false
    → append_turn sid expected turn now store ≡ none
unfolding append_turn
append_turn-stale sid expected turn now store h = rw (append_turn, h) refl

-- What an append leaves behind, as the store's own reads show it: the version is the next one and
-- the latest, the log has the turn at its end, and the log of another session is as it was.
pub record IsAppended (sid other : String) (expected : ℕ) (turn : Turn) (store : Store)
    (out : ℕ × Store) : Type 0 where
  pub was_latest : expected ≡ latest_version sid store
  pub next_version : out.0 ≡ expected + 1
  pub is_latest : latest_version sid out.1 ≡ out.0
  pub log : iter_turns sid out.1 ≡ iter_turns sid store ++ (out.0, turn) ∷ []
  pub other_log : iter_turns other out.1 ≡ iter_turns other store

IsAppended-row :
    (sid other : String) (turn : Turn) (now : ℕ) (store : Store)
    → (sid is other) ≡ false
    → IsAppended sid other (latest_version sid store) turn store (
      latest_version sid store + 1,
      store ++ row_of sid (latest_version sid store + 1) turn now ∷ [],
    )
unfolding iter_turns mine item
IsAppended-row sid other turn now store h =
    let v = latest_version sid store + 1 in
    let r = row_of sid v turn now in
    record {
      was_latest = refl;
      next_version = refl;
      is_latest = latest_version-snoc sid store r (self sid) (omega arith);
      log =
          ap (sort_by (λ (i : Item). i.0)) (items-snoc sid store r (self sid))
          ∙ sort_by-snoc (λ (i : Item). i.0) (v, turn) _ (items-Below sid store v (omega arith));
      other_log = ap (sort_by (λ (i : Item). i.0)) (items-other other store r h);
    }
  where
    self : (s : String) → (s is s) ≡ true
    self s = (is_iff s s).1 refl

-- What an append that succeeds was, and what it made.
append_turn-made :
    (sid : String) (expected : ℕ) (turn : Turn) (now : ℕ) (store : Store) {out : ℕ × Store}
    → append_turn sid expected turn now store ≡ some out
    → (expected ≡ latest_version sid store)
      × ((
        latest_version sid store + 1,
        store ++ row_of sid (latest_version sid store + 1) turn now ∷ [],
      )
          ≡ out)
append_turn-made sid expected turn now store e =
    elim (Bool-cases (expected == latest_version sid store)) [
      | inl fits ↦
          let same : expected ≡ latest_version sid store = (==_iff _ _).0 fits in
          (
            same,
            some-injective _ _ (
                sym (append_turn-fresh sid turn now store)
                ∙ (ap (λ n. append_turn sid n turn now store) (sym same) ∙ e)),
          )
      | inr stale ↦ let conflict = append_turn-stale sid expected turn now store stale in cc
    ]

-- An append that succeeds was made against the latest version: it adds its turn at the end of its
-- session's log under the next version, which is then the latest, and no other session's log changes.
pub append_turn-iter_turns :
    (sid other : String) (expected : ℕ) (turn : Turn) (now : ℕ) (store : Store) {out : ℕ × Store}
    → (sid is other) ≡ false
    → append_turn sid expected turn now store ≡ some out
    → IsAppended sid other expected turn store out
append_turn-iter_turns sid other expected turn now store {out} h e =
    let (same, made) = append_turn-made sid expected turn now store e in
    subst (λ n. IsAppended sid other n turn store out) (sym same)
      (subst (IsAppended sid other _ turn store) made (IsAppended-row sid other turn now store h))

-- Of two appends that were made against the same version of a session, the second is a conflict.
pub append_turn-once :
    (sid : String) (expected : ℕ) (turn later : Turn) (now then_ : ℕ) (store : Store)
    {out : ℕ × Store}
    → append_turn sid expected turn now store ≡ some out
    → append_turn sid expected later then_ out.1 ≡ none
append_turn-once sid expected turn later now then_ store {out} e =
    append_turn-stale sid expected later then_ out.1 stale
  where
    made :
        (expected ≡ latest_version sid store)
        × ((
          latest_version sid store + 1,
          store ++ row_of sid (latest_version sid store + 1) turn now ∷ [],
        )
            ≡ out)
    made = append_turn-made sid expected turn now store e

    latest_after : latest_version sid out.1 ≡ expected + 1
    latest_after =
        ap (λ (o : ℕ × Store). latest_version sid o.1) (sym made.1)
        ∙ (latest_version-snoc sid store (row_of sid (latest_version sid store + 1) turn now)
              ((is_iff sid sid).1 refl) (omega arith)
            ∙ ap (λ n. n + 1) (sym made.0))

    stale : (expected == latest_version sid out.1) ≡ false
    stale = rw latest_after (ground arith)
