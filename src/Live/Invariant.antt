-- ===== src/Live/Invariant.antt =====
-- scheduler/workspace.py: what holds of every live workspace between calls.
use clique.Prelude.{
  ℕ, String, ◌+◌, ◌≤◌, List, [], ◌∷◌, arith, All, length, ltb, Bool-cases, Option-cases, inl, inr,
}
use clique.Dict.{Dict, get, get_or, get_or-none, get_or-some, All-put, All-get, Unique, Unique-put}
use clique.Live.Lines.{Op, apply_ops}
use clique.Live.History.{IsLinear, Rising-later, patched-IsLinear}
use clique.Live.{
  FileState, no_file, Workspace, Service, is_bad_path, patched, applied, patch_file, apply_patch,
  ops_max,
}

pub record IsLive (ws : Workspace) : Type 0 where
  -- every file's history is one line of patches
  pub linear : All (λ e. IsLinear ws.seq e.1) ws.files
  -- no path stands twice
  pub unique : Unique ws.files

abbrev pub AllLive : Service → Type 0
AllLive s = All (λ e. IsLive e.1) s.workspaces

pub no_file-IsLinear : (seq : ℕ) → IsLinear seq no_file
no_file-IsLinear seq = record { numbered = omega arith; rising = omega arith; kept = omega arith }

IsLinear-later : (seq seq' : ℕ) (f : FileState) → seq ≤ seq' → IsLinear seq f → IsLinear seq' f
IsLinear-later seq seq' f l h = record {
  numbered = h.numbered;
  rising = Rising-later 0 f.history seq seq' l h.rising;
  kept = h.kept;
}

All-later :
    (seq seq' : ℕ) (d : Dict FileState)
    → seq ≤ seq'
    → All (λ e. IsLinear seq e.1) d
    → All (λ e. IsLinear seq' e.1) d
All-later seq seq' [] l a = tt
All-later seq seq' (e ∷ d) l a = (IsLinear-later seq seq' e.1 l a.0, All-later seq seq' d l a.1)

-- The file that a patch starts from.
get_or-IsLinear :
    (path : String) (ws : Workspace) → IsLive ws → IsLinear ws.seq (get_or path no_file ws.files)
get_or-IsLinear path ws v = elim (Option-cases (get path ws.files)) [
  | inl e ↦ rw (get_or-none path no_file ws.files e) (no_file-IsLinear ws.seq)
  | inr (f, e) ↦
      rw (get_or-some path no_file ws.files e) (All-get (IsLinear ws.seq) path ws.files e v.linear)
]

patch_file-AllLive :
    (wid path : String) (ws : Workspace) (base : ℕ) (ops : List Op) (actor : String) (s : Service)
    → IsLive ws
    → AllLive s
    → AllLive (patch_file wid ws (get_or path no_file ws.files) path base ops actor s).1
unfolding patch_file
patch_file-AllLive wid path ws base ops actor s v a =
    let fst : FileState = get_or path no_file ws.files in
    elim (Option-cases (apply_ops fst.text (applied fst base ops))) [
      | inl bad ↦
          rw (bad, patch_file)
            (All-put (λ e. IsLive e.1) wid _ s.workspaces
              (λ j. record {
                linear = All-put _ path fst ws.files (λ j. get_or-IsLinear path ws v) v.linear;
                unique = Unique-put path fst ws.files v.unique;
              })
              a)
      | inr (text, good) ↦
          rw (good, patch_file)
            (All-put (λ e. IsLive e.1) wid _ s.workspaces
              (λ j. record {
                linear =
                    All-put _ path (patched fst text (ws.seq + 1) actor base ops) ws.files
                      (λ j.
                        patched-IsLinear fst text ws.seq actor base ops (get_or-IsLinear path ws v))
                      (All-later ws.seq (ws.seq + 1) ws.files (omega arith) v.linear);
                unique = Unique-put path _ ws.files v.unique;
              })
              a)
    ]

pub apply_patch-AllLive :
    (wid path : String) (base : ℕ) (ops : List Op) (actor : String) (s : Service)
    → AllLive s
    → AllLive (apply_patch wid path base ops actor s).1
unfolding apply_patch
apply_patch-AllLive wid path base ops actor s a = elim (Option-cases (get wid s.workspaces)) [
  | inl e ↦ rw (e, apply_patch) a
  | inr (ws, e) ↦
      rw (e, apply_patch)
        (elim (Bool-cases (is_bad_path path)) [
          | inl bad ↦ rw bad a
          | inr good ↦ rw good (elim (Bool-cases (ltb ops_max (length ops))) [
            | inl many ↦ rw many a
            | inr few ↦ rw few (
                patch_file-AllLive wid path ws base ops actor s
                  (All-get IsLive wid s.workspaces e a) a)
          ])
        ])
]
