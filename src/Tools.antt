-- ===== src/Tools.antt =====
-- node/tools.py: the tool calls in a model's output, and the sandbox that they work on. The files of
-- the sandbox are a list of paths, each in parts, with their texts. `resolve` is the resolution of a
-- path in the file system, relative to the root: `none` where it leads out of the root. JSON texts and
-- the test runner are parameters.
pub mod Edit
pub mod Safety
pub mod Snapshot
mod Tests
use clique.Prelude.{
  ℕ, zero, suc, String, ◌+◌, ◌-◌, Bool, true, false, not, ◌&&◌, ◌||◌, Option, none, some, List, [],
  ◌∷◌, ◌++◌, length, take, drop, map, select, any, ◌==◌, if◌then◌else◌, ◌is◌,
}
use clique.Types.{Text}
use clique.Texts.{
  has_null, is_prefix, same_text, is_empty, split_on, is_among, strip, is_space, count_in,
  replace_in, feeds_from, with_feeds,
}
use clique.Live.{codes}
use clique.Harness.{plain_lines}

abbrev pub max_steps : ℕ
max_steps = 5

abbrev pub bash_allowlist : List String
bash_allowlist = "pytest" ∷ "python" ∷ "cargo" ∷ "go" ∷ "npm" ∷ "make" ∷ []

-- The errors that are a `ToolError`, and the others: a missing key and an error of the system.
pub data ToolFault : Type 0 where
  bad_tool_json binary_rejected path_forbidden path_escape no_such_file edit_ambiguous : ToolFault
  write_refused_overwrite bash_forbidden timeout unknown_op : ToolFault
  key_error os_error : ToolFault

pub data Result {ℓ} (A : Type ℓ) : Type ℓ where
  ok : A → Result A
  err : ToolFault → Result A

abbrev pub is_tool_error : ToolFault → Bool
is_tool_error key_error = false
is_tool_error os_error = false
is_tool_error _ = true

-- A tool call; a missing key is `none`.
pub record Call : Type 0 where
  pub op : String
  pub path : Option Text
  pub old : Option Text
  pub new : Option Text
  pub content : Option Text
  pub cmd : Option (List String)
  pub timeout_s : Option ℕ

-- What `json.loads` makes of a line: an error, a value without "op", or a call.
pub data Json : Type 0 where
  malformed other : Json
  call : Call → Json

abbrev is_fence : Text → Bool
is_fence s = is_prefix (codes "```") s

abbrev last_is : ℕ → Text → Bool
last_is c [] = false
last_is c (d ∷ []) = d == c
last_is c (d ∷ e ∷ t) = last_is c (e ∷ t)

abbrev looks_like_call : Text → Bool
looks_like_call s = is_prefix (codes "{") s && last_is b'}' s

abbrev cons_call : Json → Result (List Call) → Result (List Call)
cons_call malformed rest = err bad_tool_json
cons_call other rest = rest
cons_call (call c) (ok cs) = ok (c ∷ cs)
cons_call (call c) (err e) = err e

-- The lines, with the flag `in_fence`.
unfoldable pub parse_lines : (Text → Json) → Bool → List Text → Result (List Call)
unfolding strip is_prefix
parse_lines loads in_fence [] = ok []
parse_lines loads in_fence (line ∷ ls) =
    let s = strip is_space line in
    let toggled = parse_lines loads (not in_fence) ls in
    let same = parse_lines loads in_fence ls in
    if is_fence s
    then toggled
    else if in_fence
    then same
    else if looks_like_call s
    then cons_call (loads s) same
    else same

unfoldable pub parse_tool_calls : (Text → Json) → Text → Result (List Call)
unfolding parse_lines plain_lines
parse_tool_calls loads text = parse_lines loads false (plain_lines text)

-- The parts of a path: the segments that are not empty and not ".".
abbrev pub Parts : Type 0
Parts = List Text

abbrev is_part : Text → Bool
is_part s = not (is_empty s) && not (same_text s (codes "."))

unfoldable pub parts_of : Text → Parts
unfolding split_on same_text
parts_of path = select is_part (split_on b'/' path)

unfoldable pub same_parts : Parts → Parts → Bool
unfolding same_text
same_parts [] [] = true
same_parts (a ∷ p) (b ∷ q) = same_text a b && same_parts p q
same_parts _ _ = false

-- One path lies properly above another.
unfoldable pub is_above : Parts → Parts → Bool
unfolding same_text
is_above [] [] = false
is_above [] (b ∷ q) = true
is_above (a ∷ p) [] = false
is_above (a ∷ p) (b ∷ q) = same_text a b && is_above p q

abbrev pub Files : Type 0
Files = List (Parts × Text)

unfoldable pub text_at : Parts → Files → Option Text
unfolding same_parts
text_at p [] = none
text_at p ((q, t) ∷ fs) = if same_parts q p then some t else text_at p fs

abbrev is_root : Parts → Bool
is_root [] = true
is_root (a ∷ q) = false

-- `target.exists()`: a file, or a directory of one.
unfoldable pub exists : Parts → Files → Bool
unfolding same_parts is_above
exists p fs = is_root p || any (λ f. same_parts f.0 p || is_above p f.0) fs

-- A parent of the path is a file.
unfoldable pub is_blocked : Parts → Files → Bool
unfolding is_above
is_blocked p fs = any (λ f. is_above f.0 p) fs

-- `target.write_text(text)`
unfoldable pub put_text : Parts → Text → Files → Files
unfolding same_parts
put_text p t [] = (p, t) ∷ []
put_text p t ((q, s) ∷ fs) = if same_parts q p then (q, t) ∷ fs else (q, s) ∷ put_text p t fs

-- `read_text` of a file that must be there
abbrev pub with_text : Parts → (Text → Result (Text × Files)) → Files → Result (Text × Files)
with_text p f fs = elim (text_at p fs) [ none ↦ err no_such_file | some t ↦ f (with_feeds t) ]

-- A text written after `mkdir(parents=True)`.
abbrev pub create_at : Parts → Text → Text → Files → Result (Text × Files)
create_at p text reply fs = if is_blocked p fs then err os_error else ok (reply, put_text p text fs)

-- `text.count(old)` and `text.replace(old, new)`, the empty `old` included.
abbrev pub occurrences : Text → Text → ℕ
occurrences [] t = length t + 1
occurrences (c ∷ p) t = count_in (c ∷ p) 0 t

abbrev between : Text → Text → Text
between new [] = new
between new (c ∷ t) = new ++ c ∷ between new t

abbrev pub replaced : Text → Text → Text → Text
replaced [] new t = between new t
replaced (c ∷ p) new t = replace_in (c ∷ p) new 0 t

module _ (resolve : Parts → Option Parts) where
  -- `_guard_rel`
  unfoldable pub guard_rel : Text → Result Parts
  unfolding parts_of is_among is_prefix
  guard_rel rel =
      if is_empty rel || is_prefix (codes "/") rel || is_among (codes "..") (parts_of rel)
      then err path_forbidden
      else elim (resolve (parts_of rel)) [ none ↦ err path_escape | some p ↦ ok p ]

  abbrev pub at_path : Text → (Parts → Result (Text × Files)) → Result (Text × Files)
  at_path rel f = elim (guard_rel rel) [ err e ↦ err e | ok p ↦ f p ]

  unfoldable pub read : Text → Files → Result (Text × Files)
  unfolding feeds_from
  read path fs = at_path path (λ p. with_text p (λ t. ok (take 20000 t, fs)) fs)

  unfoldable pub edit : Text → Text → Text → Files → Result (Text × Files)
  unfolding feeds_from
  edit path old new fs = at_path path (λ p.
      with_text p
        (λ t.
          if occurrences old t == 1
          then ok (codes "edited " ++ path, put_text p (replaced old new t) fs)
          else err edit_ambiguous)
        fs)

  unfoldable pub write : Text → Text → Files → Result (Text × Files)
  write path content fs = at_path path (λ p.
      if exists p fs
      then err write_refused_overwrite
      else if has_null content
      then err binary_rejected
      else create_at p content (codes "wrote " ++ path) fs)

  -- One file of `seed`, which may come on top of another.
  unfoldable pub seed_file : Text → Text → Files → Result (Text × Files)
  seed_file rel content fs =
      at_path rel (λ p. if has_null content then err binary_rejected else create_at p content [] fs)

  unfoldable pub seed_all : List (Text × Text) → Files → Result {0} Unit × Files
  unfolding seed_file
  seed_all [] fs = (ok tt, fs)
  seed_all ((rel, content) ∷ l) fs = elim (seed_file rel content fs) [
    | err e ↦ (err e, fs)
    | ok (reply, fs') ↦ seed_all l fs'
  ]

  -- `seed` starts from an empty directory; on an error it stops where it is.
  abbrev pub seed : List (Text × Text) → Result {0} Unit × Files
  seed l = seed_all l []

  module _ (run_test : List String → ℕ → Files → Result (Text × Files)) where
    abbrev pub bash : List String → ℕ → Files → Result (Text × Files)
    bash [] timeout_s fs = err bash_forbidden
    bash (c ∷ cs) timeout_s fs =
        if any (λ a. a is c) bash_allowlist
        then run_test (c ∷ cs) timeout_s fs
        else err bash_forbidden

    -- A value under a key that must be there.
    abbrev pub need {ℓ} :
        {A : Type ℓ} → Option A → (A → Result (Text × Files)) → Result (Text × Files)
    need none f = err key_error
    need (some a) f = f a

    abbrev or_empty : Option Text → Text
    or_empty none = []
    or_empty (some t) = t

    abbrev or_minute : Option ℕ → ℕ
    or_minute none = 60
    or_minute (some n) = n

    unfoldable pub apply_call : Call → Files → Result (Text × Files)
    unfolding read edit write
    apply_call c fs =
        if c.op is "read"
        then need c.path (λ p. read p fs)
        else if c.op is "edit"
        then need c.path (λ p. need c.old (λ o. need c.new (λ n. edit p o n fs)))
        else if c.op is "write"
        then need c.path (λ p. write p (or_empty c.content) fs)
        else if c.op is "bash"
        then need c.cmd (λ cmd. bash cmd (or_minute c.timeout_s) fs)
        else if c.op is "done"
        then ok (codes "done", fs)
        else err unknown_op
