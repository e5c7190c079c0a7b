-- ===== src/Live/Errors.antt =====
-- scheduler/workspace.py: patches that raise, and insertions behind the last line.
use Prim.Native.Nat.{min, ◌-◌}
use clique.Prelude.{
  subst, ℕ, String, ◌+◌, ◌≤◌, ◌≡◌, refl, ap, some, List, [], ◌∷◌, ◌++◌, arith, length, ltb,
  Bool-cases, Option-cases, inl, inr, if◌then◌else◌, ◌is◌, is_iff,
}
use mathlib.Core.List.{append_assoc, append-nil}
use clique.Types.{Text}
use clique.Dict.{get, put, get_or, get-put, get_or-put_default}
use clique.Live.Lines.{Op, apply_ops, split_lines, join, join-split_lines, terminated, insert_at}
use clique.Live.Concurrent.{ins}
use clique.Live.Create.{file_state}
use clique.Live.{
  FileState, Event, bad_path, too_many_ops, no_file, Workspace, Service, Result, err, LiveError,
  is_bad_path, applied, patch_file, apply_patch, ops_max,
}

-- Every read of a file gives the same, and so do the counters of the next flush.
abbrev pub Unseen : Service → Service → Type 0
Unseen s s' =
    ((wid path : String) → file_state wid path s' ≡ file_state wid path s)
    × (s'.ops_since_flush ≡ s.ops_since_flush)
    × (s'.actors_since_flush ≡ s.actors_since_flush)

-- A file that is registered and empty reads like one that is not there.
file_state-put :
    (wid path w p : String) (ws : Workspace) (s : Service)
    → get wid s.workspaces ≡ some ws
    → file_state w p (record s {
      workspaces =
          put wid
            (record ws { files = put path (get_or path no_file ws.files) ws.files })
            s.workspaces;
    })
      ≡ file_state w p s
unfolding file_state
file_state-put wid path w p ws s g = elim (Bool-cases (wid is w)) [
  | inr other ↦ rw (get-put, other)
  | inl same ↦
      let eq : wid ≡ w = (is_iff wid w).0 same in
      let there : get w s.workspaces ≡ some ws = rw (← eq) g in
      rw (get-put, same, there, get_or-put_default)
]

patch_file-error :
    (wid path : String) (ws : Workspace) (base : ℕ) (ops : List Op) (actor : String) (s : Service)
    {e : LiveError} {s' : Service}
    → get wid s.workspaces ≡ some ws
    → patch_file wid ws (get_or path no_file ws.files) path base ops actor s ≡ (err e, s')
    → Unseen s s'
unfolding patch_file
patch_file-error wid path ws base ops actor s {e} {s'} g h =
    let fst : FileState = get_or path no_file ws.files in
    elim (Option-cases (apply_ops fst.text (applied fst base ops))) [
      | inr (t, good) ↦ let never = rw (good, patch_file) at h in absurd (ground arith)
      | inl bad ↦
          let left = rw (bad, patch_file) at h in
          subst (Unseen s) (ap (λ (r : Result Event × Service). r.1) left)
            (λ w p. file_state-put wid path w p ws s g, refl, refl)
    ]

-- A patch that raises, for whatever reason, changes no version, sequence number or text that a read
-- of a file gives, and does not count for the next flush.
pub apply_patch-error :
    (wid path : String) (base : ℕ) (ops : List Op) (actor : String) (s s' : Service) {e : LiveError}
    → apply_patch wid path base ops actor s ≡ (err e, s')
    → Unseen s s'
unfolding apply_patch
apply_patch-error wid path base ops actor s s' {e} h = elim (Option-cases (get wid s.workspaces)) [
  | inl none_yet ↦ unmoved (rw (none_yet, apply_patch) at h)
  | inr (ws, g) ↦ found ws g (rw (g, apply_patch) at h)
]
  where
    unmoved :
        {x : LiveError} → ◌≡◌ {A = Result Event × Service} (err x, s) (err e, s') → Unseen s s'
    unmoved q =
        subst (Unseen s) (ap (λ (r : Result Event × Service). r.1) q) (λ w p. refl, refl, refl)

    found :
        (ws : Workspace)
        → get wid s.workspaces ≡ some ws
        → (if is_bad_path path
            then (err bad_path, s)
            else if ltb ops_max (length ops)
            then (err too_many_ops, s)
            else patch_file wid ws (get_or path no_file ws.files) path base ops actor s)
          ≡ (err e, s')
        → Unseen s s'
    found ws g q = elim (Bool-cases (is_bad_path path)) [
      | inl bad ↦ unmoved (rw bad at q)
      | inr good ↦ elim (Bool-cases (ltb ops_max (length ops))) [
        | inl many ↦ unmoved (rw (good, many) at q)
        | inr few ↦ patch_file-error wid path ws base ops actor s g (rw (good, few) at q)
      ]
    ]

join-append : (xs ys : List Text) → join (xs ++ ys) ≡ join xs ++ join ys
unfolding join
join-append [] ys = refl
join-append (x ∷ xs) ys = rw (join-append xs ys, append_assoc)

insert_at-length : (new l : List Text) → insert_at (length l) new l ≡ l ++ new
unfolding insert_at
insert_at-length new [] = append-nil new
insert_at-length new (x ∷ l) = ap (◌∷◌ x) (insert_at-length new l)

-- An insertion behind the last line puts its text directly behind the text of the file: where the
-- last line does not end with a line feed, the two are glued into one line.
pub apply_ops-append :
    (text : Text) (n : ℕ) (t : Text)
    → length (split_lines text) ≤ n
    → apply_ops text (ins n t ∷ []) ≡ some (text ++ terminated t)
unfolding apply_ops
apply_ops-append text n t h =
    let lines = split_lines text in
    let place : min (n + 1 - 1) (length lines) ≡ length lines = omega arith in
    rw (place, insert_at-length, join-append, join-split_lines, join-split_lines)
