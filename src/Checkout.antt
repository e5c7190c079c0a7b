-- ===== src/Checkout.antt =====
-- scheduler/workspaces.py: the class WorkspaceManager, a directory of files for each task, and the
-- applier of diffs that serves where patch(1) is missing. `resolve` gives the place of a path in a
-- task's directory, as the operating system resolves it. Every write is taken to succeed. The
-- identifier "." names the base directory itself.
pub mod Apply
pub mod Hunks
mod Tests
use clique.Prelude.{
  ℕ, String, Bool, true, false, not, ◌&&◌, ◌||◌, Option, none, some, List, [], ◌∷◌, ◌++◌, length,
  drop, any, if◌then◌else◌, ◌≡◌, refl, Bool-cases, inl, inr,
}
use clique.Types.{Text, CodeTaskSpec}
use clique.Texts.{
  is_prefix, same_text, is_empty, contains, is_among, split_on, is_space, strip, has_null,
  feeds_from, with_feeds,
}
use clique.Dict.Keyed.{Keyed, fetch, store, discard, fetch-discard}
use clique.Live.{codes}
use clique.Live.Lines.{split_lines, join}
use clique.Tools.{Parts, Files, text_at, put_text}

pub data Fault : Type 0 where
  bad_task_id path_forbidden binary_rejected context_miss no_file_headers : Fault
  no_workspace patch_conflict tests_failed timeout : Fault

pub data Result {ℓ} (A : Type ℓ) : Type ℓ where
  ok : A → Result A
  err : Fault → Result A

-- The directories of the tasks.
abbrev pub Dirs : Type 0
Dirs = Keyed Text Files

-- The check of `path_for`
unfoldable pub is_task_id : Text → Bool
unfolding contains
is_task_id tid = not (is_empty tid || contains (codes "/") tid || contains (codes "..") tid)

-- A path of a snapshot that `create` refuses
unfoldable pub is_outside : Text → Bool
unfolding is_prefix is_among split_on
is_outside rel = is_prefix (codes "/") rel || is_among (codes "..") (split_on 47 rel)

-- What stands in front of a line of a diff
abbrev pub starts : String → Text → Bool
starts p l = is_prefix (codes p) l

-- `t.removeprefix(p)`
unfoldable pub remove_prefix : Text → Text → Text
unfolding is_prefix
remove_prefix p t = if is_prefix p t then drop (length p) t else t

-- `lines.remove(line)`, where it is there
unfoldable pub take_out : Text → List Text → Option (List Text)
unfolding same_text
take_out line [] = none
take_out line (l ∷ ls) =
    let rest = take_out line ls in
    if same_text l line then some ls else elim rest [ none ↦ none | some r ↦ some (l ∷ r) ]

unfoldable pub take_all : List Text → List Text → Option (List Text)
unfolding take_out
take_all [] ls = some ls
take_all (line ∷ lines) ls = elim (take_out line ls) [ none ↦ none | some r ↦ take_all lines r ]

-- What `_apply_simple` knows of the file that it is at.
pub record Hunk : Type 0 where
  pub cur : Option Text
  pub old_lines : List Text
  pub new_lines : List Text
  pub in_hunk : Bool

-- `not old_lines and new_lines`
abbrev pub only_adds : List Text → List Text → Bool
only_adds [] (l ∷ ls) = true
only_adds _ _ = false

abbrev pub no_hunk : Hunk
no_hunk = record { cur = none; old_lines = []; new_lines = []; in_hunk = false }

-- `read_text` of a file, empty where it is not there
abbrev pub text_or_none : Parts → Files → Text
text_or_none p fs = elim (text_at p fs) [ none ↦ [] | some t ↦ with_feeds t ]

-- A line inside a file's part of the diff
unfoldable pub scan : Text → Hunk → Hunk
unfolding is_prefix
scan l h =
    if starts "@@" l
    then record h { in_hunk = true }
    else if not (h.in_hunk && (elim h.cur [ none ↦ false | some c ↦ true ]))
    then h
    else if starts "-" l
    then record h { old_lines = h.old_lines ++ drop 1 l ∷ [] }
    else if starts "+" l
    then record h { new_lines = h.new_lines ++ drop 1 l ∷ [] }
    else h

-- A header of the next file
unfoldable pub begin_file : Text → Hunk
unfolding strip
begin_file l = record {
  cur = some (strip is_space (drop 4 l));
  old_lines = [];
  new_lines = [];
  in_hunk = false;
}

-- `shutil.rmtree`; the directory of "." is the one that holds all others.
unfoldable pub drop_dir : Text → Dirs → Dirs
unfolding discard same_text
drop_dir tid dirs = if same_text tid (codes ".") then [] else discard same_text tid dirs

pub fetch-drop_dir : (tid : Text) (dirs : Dirs) → fetch same_text tid (drop_dir tid dirs) ≡ none
unfolding drop_dir fetch
fetch-drop_dir tid dirs = elim (Bool-cases (same_text tid (codes "."))) [
  | inl e ↦ rw e refl
  | inr e ↦ rw e (fetch-discard same_text tid dirs)
]

module _ (resolve : Text → Parts) where
  abbrev pub target_of : Text → Parts
  target_of cur = resolve (remove_prefix (codes "a/") (remove_prefix (codes "b/") cur))

  -- The inner function `flush`
  unfoldable pub flush : Hunk → Files → Result Files
  unfolding feeds_from take_all text_at put_text split_lines join remove_prefix
  flush h fs = elim h.cur [
    | none ↦ ok fs
    | some cur ↦
        if only_adds h.old_lines h.new_lines
        then ok (put_text (target_of cur) (join h.new_lines) fs)
        else elim (take_all h.old_lines (split_lines (text_or_none (target_of cur) fs))) [
          | none ↦ err context_miss
          | some ls ↦ ok (put_text (target_of cur) (join (ls ++ h.new_lines)) fs)
        ]
  ]

  abbrev pub finish : Hunk → Files → Result {0} Unit × Files
  finish h fs = elim (flush h fs) [
    | err e ↦ (err e, fs)
    | ok fs' ↦ elim h.cur [ none ↦ (err no_file_headers, fs') | some c ↦ (ok tt, fs') ]
  ]

  -- The loop over the lines of the diff; an error leaves the files that were written before it.
  unfoldable pub run : List Text → Hunk → Files → Result {0} Unit × Files
  unfolding flush scan begin_file
  run [] h fs = finish h fs
  run (l ∷ ls) h fs = elim (starts "+++ " l) [
    | true ↦ elim (flush h fs) [ err e ↦ (err e, fs) | ok fs' ↦ run ls (begin_file l) fs' ]
    | false ↦ run ls (scan l h) fs
  ]

  unfoldable pub apply_simple : Text → Files → Result {0} Unit × Files
  unfolding run split_lines
  apply_simple diff fs = run (split_lines diff) no_hunk fs

  -- The loop of `create` over the snapshot
  unfoldable pub seed_files : List (String × Text) → Files → Result {0} Unit × Files
  unfolding is_outside put_text
  seed_files [] fs = (ok tt, fs)
  seed_files ((rel, content) ∷ files) fs =
      let rest = seed_files files (put_text (resolve (codes rel)) content fs) in
      if is_outside (codes rel)
      then (err path_forbidden, fs)
      else if has_null content
      then (err binary_rejected, fs)
      else rest

  unfoldable pub create : Text → CodeTaskSpec → Dirs → Result {0} Unit × Dirs
  unfolding is_task_id seed_files store same_text drop_dir
  create tid spec dirs =
      let seeded = seed_files spec.files [] in
      if is_task_id tid
      then (seeded.0, store same_text tid seeded.1 (drop_dir tid dirs))
      else (err bad_task_id, dirs)

unfoldable pub cleanup : Text → Dirs → Result {0} Unit × Dirs
unfolding is_task_id drop_dir
cleanup tid dirs = if is_task_id tid then (ok tt, drop_dir tid dirs) else (err bad_task_id, dirs)

abbrev pub clear : Dirs → ℕ × Dirs
clear dirs = (length dirs, [])
