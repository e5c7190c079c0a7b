-- ===== src/Live.antt =====
-- scheduler/workspace.py: live workspaces. A call of `apply_patch` runs under the workspace's lock,
-- so it is one step. The parts: `Live.Lines` (texts and patch operations), `Live.Rebase`, and the
-- service here, with its theorems in the other children.
pub mod Lines
pub mod Rebase
pub mod History
pub mod Create
pub mod Flush
pub mod Invariant
pub mod Kept
pub mod Reach
mod Merge
pub mod Concurrent
pub mod Errors
mod Tests
use Prim.Native.Char.{code}
use clique.Prelude.{
  ℕ, String, ◌+◌, ◌-◌, Bool, true, false, not, ◌&&◌, ◌||◌, Option, none, some, List, [], ◌∷◌, ◌++◌,
  length, drop, map, any, leb, ltb, ◌==◌, if◌then◌else◌, ◌is◌,
}
use clique.Types.{Text}
use clique.Dict.{Dict, get, put, remove, get_or}
use clique.Live.Lines.{Op, apply_ops}
use clique.Live.Rebase.{Entry, rebase_ops}

pub record FileState : Type 0 where
  pub text : Text
  pub version : ℕ
  pub history : List Entry

-- `FileState()`
abbrev pub no_file : FileState
no_file = record { text = []; version = 0; history = [] }

-- What is in memory; the working tree that the flushes write is not modelled.
pub record Workspace : Type 0 where
  pub workspace_id : String
  pub files : Dict FileState
  pub seq : ℕ
  pub dirty : Bool
  pub flush_pending : Bool

pub record Service : Type 0 where
  pub workspaces : Dict Workspace
  pub ops_since_flush : Dict ℕ
  pub actors_since_flush : Dict (List String)

pub data LiveError : Type 0 where
  no_workspace bad_id bad_path binary_rejected too_large too_many_ops unknown_op : LiveError

pub data Result {ℓ} (A : Type ℓ) : Type ℓ where
  ok : A → Result A
  err : LiveError → Result A

-- What a patch schedules: a flush at once, a debounced one, or nothing more.
pub data Spawn : Type 0 where
  flush_now flush_later nothing : Spawn

pub record Event : Type 0 where
  pub workspace_id : String
  pub path : String
  pub version : ℕ
  pub seq : ℕ
  pub ops : List Op
  pub actor : String
  pub rebased : Bool
  pub spawn : Spawn

abbrev pub flush_max_ops : ℕ
flush_max_ops = 50

abbrev pub history_max : ℕ
history_max = 200

abbrev pub ops_max : ℕ
ops_max = 100

abbrev pub codes : String → Text
codes String.[] = []
codes (String.◌∷◌ c s) = code c ∷ codes s

cut : Bool → ℕ → List Text → List Text
cut true c ls = [] ∷ ls
cut false c [] = (c ∷ []) ∷ []
cut false c (l ∷ ls) = (c ∷ l) ∷ ls

-- The components of a path between its slashes.
parts : Text → List Text
unfolding cut
parts [] = [] ∷ []
parts (c ∷ t) = cut (c == 47) c (parts t)

abbrev is_parent : Text → Bool
is_parent (a ∷ b ∷ []) = a == 46 && b == 46
is_parent _ = false

starts_with_slash : Text → Bool
starts_with_slash [] = false
starts_with_slash (c ∷ t) = c == 47

-- `_check_path` raises on these: an empty path, an absolute one, one with a component `..`.
pub is_bad_path : String → Bool
unfolding parts starts_with_slash
is_bad_path path =
    path is "" || starts_with_slash (codes path) || any is_parent (parts (codes path))

-- `self._actors_since_flush.setdefault(workspace_id, set()).add(actor)`
abbrev pub add_actor : String → List String → List String
add_actor a actors = if any (λ b. b is a) actors then actors else actors ++ a ∷ []

-- `history[-200:]`
abbrev pub trim : List Entry → List Entry
trim h = if ltb history_max (length h) then drop (length h - history_max) h else h

-- The operations that are applied: those of the client, or rebased onto the head.
pub applied : FileState → ℕ → List Op → List Op
applied fst base ops = if base == fst.version then ops else rebase_ops fst.history base ops

-- The file after a patch, given the text that it produced.
pub patched : FileState → Text → ℕ → String → ℕ → List Op → FileState
unfolding applied
patched fst text seq actor base ops = record {
  text = text;
  version = fst.version + 1;
  history = trim (
      fst.history
      ++ (record {
        seq = seq;
        version = fst.version + 1;
        ops = applied fst base ops;
        actor = actor;
        base = base;
        rebased = not (base == fst.version);
      })
        ∷ []);
}

abbrev pub spawn_of : ℕ → Bool → Spawn
spawn_of n pending =
    if leb flush_max_ops n then flush_now else if pending then nothing else flush_later

abbrev pub is_later : Spawn → Bool
is_later flush_later = true
is_later _ = false

-- The body of `apply_patch` under the lock. A file that is missing is created before its
-- operations run, so it stays when they raise.
pub patch_file :
    String
    → Workspace
    → FileState
    → String
    → ℕ
    → List Op
    → String
    → Service
    → Result Event × Service
unfolding patched applied apply_ops
patch_file wid ws fst path base ops actor s = elim (apply_ops fst.text (applied fst base ops)) [
  | none ↦ (
    err unknown_op,
    record s { workspaces = put wid (record ws { files = put path fst ws.files }) s.workspaces },
  )
  | some text ↦
      let n = get_or wid 0 s.ops_since_flush + 1 in
      let spawn = spawn_of n ws.flush_pending in
      (
        ok (record {
          workspace_id = wid;
          path = path;
          version = fst.version + 1;
          seq = ws.seq + 1;
          ops = applied fst base ops;
          actor = actor;
          rebased = not (base == fst.version);
          spawn = spawn;
        }),
        record {
          workspaces =
              put wid
                (record ws {
                  files = put path (patched fst text (ws.seq + 1) actor base ops) ws.files;
                  seq = ws.seq + 1;
                  dirty = true;
                  flush_pending = ws.flush_pending || is_later spawn;
                })
                s.workspaces;
          ops_since_flush = put wid n s.ops_since_flush;
          actors_since_flush =
              put wid (add_actor actor (get_or wid [] s.actors_since_flush)) s.actors_since_flush;
        },
      )
]

pub apply_patch : String → String → ℕ → List Op → String → Service → Result Event × Service
unfolding patch_file is_bad_path get
apply_patch wid path base ops actor s = elim (get wid s.workspaces) [
  | none ↦ (err no_workspace, s)
  | some ws ↦
      if is_bad_path path
      then (err bad_path, s)
      else if ltb ops_max (length ops)
      then (err too_many_ops, s)
      else patch_file wid ws (get_or path no_file ws.files) path base ops actor s
]
