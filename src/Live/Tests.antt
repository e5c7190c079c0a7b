-- ===== src/Live/Tests.antt =====
-- The live workspaces of scheduler/workspace.py on concrete files.
use clique.Prelude.{
  ℕ, String, ◌+◌, ◌-◌, ◌≡◌, refl, true, false, Option, none, List, [], ◌∷◌, arith, length, drop,
}
use clique.Types.{Text}
use clique.Live.Lines.{
  round, go, insert, delete, Op, Kind, split_lines, terminated, insert_at, delete_to, apply_ops,
  push, ends_line, index, slice_end,
}
use clique.Live.Rebase.{shift, rebase_ops, over_entries, Entry}
use clique.Live.Concurrent.{
  ins, del, both, beside, rebase-over_insert, rebase-over_delete, rebase-same_delete,
}
use clique.Live.History.{missed, rebase_ops-missed, IsLinear}
use clique.Live.Errors.{Unseen, apply_patch-error}
use clique.Live.Reach.{here, next, patched, forced, LiveReach-AllLive}
use clique.Live.Invariant.{AllLive}
use clique.Live.{codes, Service, Workspace, FileState, apply_patch, err, unknown_op}
use clique.Dict.{get, get_or}
use clique.Live.Flush.{force_flush}

abbrev abc : List Text
abc = codes "a\n" ∷ codes "b\n" ∷ codes "c\n" ∷ []

abbrev x_line : Text
x_line = codes "x\n"

-- `unfolding runs` opens what a round of a patch computes with.
runs : Unit {0}
unfolding round split_lines push ends_line terminated insert_at delete_to index slice_end apply_ops
runs = tt

insertion_runs : round insert (ins 0 x_line) abc ≡ go (x_line ∷ abc)
unfolding runs
insertion_runs = refl

deletion_runs : round delete (del 0 1) abc ≡ go (drop 1 abc)
unfolding runs
deletion_runs = refl

rebase-over_insert_example :
    round insert (shift (ins 0 x_line) (ins 2 (codes "y"))) (x_line ∷ abc)
    ≡ go (both 0 2 (split_lines x_line) (split_lines (terminated (codes "y"))) abc)
unfolding runs
rebase-over_insert_example =
    rebase-over_insert abc (x_line ∷ abc) 0 2 x_line (codes "y") refl (omega arith) (omega arith)
      refl

rebase-over_delete_example :
    round insert (shift (del 0 1) (ins 2 (codes "y"))) (drop 1 abc)
    ≡ go (beside 0 1 2 (split_lines (terminated (codes "y"))) abc)
unfolding runs
rebase-over_delete_example =
    rebase-over_delete abc (drop 1 abc) 0 1 2 (codes "y") (omega arith) (omega arith) refl

rebase-same_delete_example :
    round delete (shift (del 0 1) (del 0 1)) (drop 1 abc) ≡ go (codes "c\n" ∷ [])
unfolding runs
rebase-same_delete_example = rebase-same_delete abc (drop 1 abc) 0 1 (omega arith) refl

abbrev entry : ℕ → Entry
entry v = record {
  seq = v + 1;
  version = v;
  ops = ins 0 x_line ∷ [];
  actor = "ann";
  base = v - 1;
  rebased = false;
}

abbrev file : FileState
file = record { text = codes "x\nx\n"; version = 3; history = entry 2 ∷ entry 3 ∷ [] }

file-IsLinear : IsLinear 4 file
file-IsLinear = record { numbered = omega arith; rising = omega arith; kept = omega arith }

rebase_ops-missed_example :
    (rebase_ops file.history 2 (ins 0 [] ∷ []) ≡ over_entries (missed file 2) (ins 0 [] ∷ []))
    × (length (missed file 2) ≡ file.version - 2)
rebase_ops-missed_example =
    rebase_ops-missed 4 file 2 (ins 0 [] ∷ []) file-IsLinear (omega arith) (omega arith)

abbrev desk : Workspace
desk = record {
  workspace_id = "w";
  files = ("main.py", file) ∷ [];
  seq = 4;
  dirty = true;
  flush_pending = true;
}

abbrev service : Service
service = record {
  workspaces = ("w", desk) ∷ [];
  ops_since_flush = ("w", 2) ∷ [];
  actors_since_flush = ("w", "ann" ∷ []) ∷ [];
}

service-AllLive : AllLive service
unfolding get
service-AllLive = (record { linear = (file-IsLinear, tt); unique = (refl, tt) }, tt)

abbrev no_commit : Workspace → ℕ → List String → Option String
no_commit ws n actors = none

LiveReach-AllLive_example :
    AllLive
      (force_flush no_commit "w"
        (apply_patch "w" "main.py" 2 (ins 0 x_line ∷ []) "bob" service).1).1
LiveReach-AllLive_example = LiveReach-AllLive no_commit service-AllLive (
    next (next here (patched "w" "main.py" 2 (ins 0 x_line ∷ []) "bob" service))
      (forced "w" (apply_patch "w" "main.py" 2 (ins 0 x_line ∷ []) "bob" service).1))

abbrev bad_op : Op
bad_op = record { kind = Kind.unknown; line = none; text = none; count = none }

-- The state behind a patch of a new file that raises.
abbrev failed : Service
failed = (apply_patch "w" "new.py" 0 (bad_op ∷ []) "bob" service).1

raises : apply_patch "w" "new.py" 0 (bad_op ∷ []) "bob" service ≡ (err unknown_op, failed)
unfolding apply_patch runs get get_or
raises = refl

apply_patch-error_example : Unseen service failed
apply_patch-error_example =
    apply_patch-error "w" "new.py" 0 (bad_op ∷ []) "bob" service failed raises
