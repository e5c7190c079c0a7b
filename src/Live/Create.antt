-- ===== src/Live/Create.antt =====
-- scheduler/workspace.py: `create`, `get`, `list_ids`, `snapshot` and `file_state`.
use clique.Prelude.{
  ℕ, String, Bool, false, ◌&&◌, ◌||◌, Option, none, some, List, [], ◌∷◌, length, map, any, ltb,
  ◌==◌, if◌then◌else◌, ◌is◌,
}
use clique.Types.{Text}
use clique.Dict.{Dict, get, put, get_or}
use clique.Live.{
  FileState, no_file, Workspace, Service, Result, ok, err, no_workspace, bad_id, bad_path,
  binary_rejected, too_large, codes, is_bad_path,
}

-- `".." in wid`
has_two_dots : Text → Bool
has_two_dots [] = false
has_two_dots (a ∷ []) = false
has_two_dots (a ∷ b ∷ t) = (a == 46 && b == 46) || has_two_dots (b ∷ t)

unfoldable pub is_bad_id : String → Bool
unfolding has_two_dots
is_bad_id wid = wid is "" || any (λ c. c == 47) (codes wid) || has_two_dots (codes wid)

-- `workspace_id or fresh`
abbrev pub id_or : Option String → String → String
id_or none fresh = fresh
id_or (some wid) fresh = if wid is "" then fresh else wid

abbrev max_size : ℕ
max_size = 1000000

-- The loop over the initial files; the first one that is refused ends it.
unfoldable pub seed : Dict Text → Dict FileState → Result (Dict FileState)
unfolding is_bad_path put
seed [] files = ok files
seed ((path, text) ∷ rest) files =
    let fst : FileState = record { text = text; version = 1; history = [] } in
    let next = seed rest (put path fst files) in
    if is_bad_path path
    then err bad_path
    else if any (λ c. c == 0) text
    then err binary_rejected
    else if ltb max_size (length text)
    then err too_large
    else next

-- A refusal leaves the service as it was; the files written before it stay in the directory, which
-- is not modelled.
abbrev pub created : String → Result (Dict FileState) → Service → Result Workspace × Service
created wid (err e) s = (err e, s)
created wid (ok files) s =
    let ws : Workspace = record {
      workspace_id = wid;
      files = files;
      seq = 1;
      dirty = false;
      flush_pending = false;
    } in
    (ok ws, record s { workspaces = put wid ws s.workspaces })

unfoldable pub create : Option String → String → Dict Text → Service → Result Workspace × Service
unfolding seed is_bad_id
create workspace_id fresh initial s =
    let wid = id_or workspace_id fresh in
    if is_bad_id wid then (err bad_id, s) else created wid (seed initial []) s

pub record Snapshot : Type 0 where
  pub workspace_id : String
  pub seq : ℕ
  pub files : List (String × ℕ × Text)

unfoldable pub snapshot : String → Service → Result Snapshot
unfolding get
snapshot wid s = elim (get wid s.workspaces) [
  | none ↦ err no_workspace
  | some ws ↦ ok (record {
    workspace_id = wid;
    seq = ws.seq;
    files = map (λ e. (e.0, e.1.version, e.1.text)) ws.files;
  })
]

-- The version, the workspace's sequence number and the text; an unknown path reads as an empty file.
abbrev pub shown : String → Option Workspace → Result (ℕ × ℕ × Text)
shown path none = err no_workspace
shown path (some ws) = let f = get_or path no_file ws.files in ok (f.version, ws.seq, f.text)

unfoldable pub file_state : String → String → Service → Result (ℕ × ℕ × Text)
file_state wid path s = shown path (get wid s.workspaces)

unfoldable pub list_ids : Service → List String
list_ids s = map (λ e. e.0) s.workspaces
