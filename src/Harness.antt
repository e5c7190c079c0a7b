-- ===== src/Harness.antt =====
-- scheduler/harness.py: the diff in a model's output, the guards of a diff, and the prompt of a code
-- task.
pub mod Fences
pub mod Guards
pub mod Hidden
pub mod Prompt
mod Tests
use clique.Prelude.{
  ℕ, zero, suc, String, ◌+◌, ◌-◌, ◌*◌, Bool, true, false, not, ◌&&◌, ◌||◌, Option, none, some, List,
  [], ◌∷◌, ◌++◌, length, take, drop, map, any, leb, ltb, ◌==◌, if◌then◌else◌, ◌is◌,
}
use clique.Types.{Text, CodeTaskSpec}
use clique.Texts.{
  has_null, is_prefix, same_text, is_empty, split_at, contains, is_space, lstrip, rstrip, strip,
  after_last, split_on, is_among, encoded_length,
}
use clique.Live.{codes}
use clique.Live.Lines.{split_lines, is_break}

pub data HarnessError : Type 0 where
  diff_missing diff_invalid patch_too_large path_forbidden test_cmd_forbidden : HarnessError

pub data Result {ℓ} (A : Type ℓ) : Type ℓ where
  ok : A → Result A
  err : HarnessError → Result A

abbrev pub fence_open : Text
fence_open = codes "```diff\n"

abbrev pub fence_close : Text
fence_close = codes "```"

-- `_strip_reasoning`
unfoldable pub strip_reasoning : Text → Text
unfolding after_last
strip_reasoning output = elim (after_last (codes "</think>") output) [
  | none ↦ output
  | some answer ↦ answer
]

-- `_FENCE_RE.findall`, on fuel: from left to right, each body as short as it can be.
unfoldable pub fences : ℕ → Text → List Text
unfolding split_at
fences zero t = []
fences (suc n) t = elim (split_at fence_open t) [
  | none ↦ []
  | some (before, rest) ↦ elim (split_at fence_close rest) [
    | none ↦ []
    | some (body, after) ↦ body ∷ fences n after
  ]
]

abbrev pub find_fences : Text → List Text
find_fences t = fences (suc (length t)) t

abbrev pub diff_of : Text → Result Text
diff_of body =
    let diff = strip is_space body ++ 10 ∷ [] in
    if not (is_prefix (codes "--- ") diff) && not (contains (codes "diff --git") diff)
    then err diff_invalid
    else ok diff

abbrev pub single : List Text → Result Text
single [] = err diff_missing
single (body ∷ []) = diff_of body
single (a ∷ b ∷ l) = err diff_invalid

unfoldable pub extract_diff : Text → Result Text
unfolding strip_reasoning fences strip is_prefix contains
extract_diff output =
    if is_empty output then err diff_missing else single (find_fences (strip_reasoning output))

-- A line without its end.
unfoldable pub chomp : Text → Text
unfolding is_break
chomp [] = []
chomp (c ∷ []) = if is_break c then [] else c ∷ []
chomp (c ∷ d ∷ t) =
    let rest = c ∷ chomp (d ∷ t) in if c == 13 && d == 10 && is_empty t then [] else rest

-- `text.splitlines()`
unfoldable pub plain_lines : Text → List Text
unfolding chomp split_lines
plain_lines t = map chomp (split_lines t)

abbrev pub starts_file : Text → Bool
starts_file line = is_prefix (codes "--- a/") line || is_prefix (codes "+++ b/") line

abbrev pub is_header : Text → Bool
is_header line = is_prefix (codes "--- ") line || is_prefix (codes "+++ ") line

-- The characters of "a/b/".
abbrev pub is_a_b_slash : ℕ → Bool
is_a_b_slash c = c == b'a' || c == b'/' || c == b'b'

unfoldable pub paths_of : List Text → List Text
unfolding is_prefix contains lstrip
paths_of [] = []
paths_of (line ∷ ls) =
    let rest = paths_of ls in
    if starts_file line
    then drop 6 line ∷ rest
    else if is_header line && not (contains (codes "dev/null") line)
    then lstrip is_a_b_slash (drop 4 line) ∷ rest
    else rest

-- `_touched_paths`
unfoldable pub touched_paths : Text → List Text
unfolding paths_of plain_lines
touched_paths diff = paths_of (plain_lines diff)

abbrev pub is_skipped : Text → Bool
is_skipped path = is_empty path || same_text path (codes "/dev/null")

-- An absolute path, or one with a segment "..".
abbrev pub leaves_root : Text → Bool
leaves_root path = is_prefix (codes "/") path || is_among (codes "..") (split_on b'/' path)

abbrev pub is_slash : ℕ → Bool
is_slash c = c == b'/'

abbrev pub is_under : Text → Text → Bool
is_under path a = same_text path a || is_prefix (rstrip is_slash a ++ codes "/") path

abbrev no_paths : List Text → Bool
no_paths [] = true
no_paths (p ∷ ps) = false

abbrev pub is_allowed : List Text → Text → Bool
is_allowed allowed path = no_paths allowed || any (is_under path) allowed

unfoldable pub check_path : CodeTaskSpec → Text → Bool
unfolding same_text is_prefix is_among split_on rstrip
check_path spec path =
    is_skipped path
    || (not (leaves_root path) && not (has_null path) && is_allowed spec.allowed_paths path)

unfoldable pub check_paths : CodeTaskSpec → List Text → Bool
unfolding check_path
check_paths spec [] = true
check_paths spec (p ∷ ps) = if check_path spec p then check_paths spec ps else false

abbrev pub test_allowlist : List String
test_allowlist = "pytest" ∷ "cargo" ∷ "go" ∷ "npm" ∷ "pnpm" ∷ "make" ∷ []

abbrev pub is_test_cmd : List String → Bool
is_test_cmd [] = false
is_test_cmd (c ∷ cs) = any (λ a. a is c) test_allowlist

-- The size is compared in bytes, `patch_budget_kb` times 1024.
unfoldable pub validate_diff : Text → CodeTaskSpec → Result {0} Unit
unfolding encoded_length check_paths touched_paths
validate_diff diff spec =
    if ltb (spec.patch_budget_kb * 1024) (encoded_length diff)
    then err patch_too_large
    else if not (check_paths spec (touched_paths diff))
    then err path_forbidden
    else if not (is_test_cmd spec.test_cmd)
    then err test_cmd_forbidden
    else ok tt

-- `' '.join(…)`
unfoldable pub join_words : List String → Text
join_words [] = []
join_words (w ∷ []) = codes w
join_words (w ∷ v ∷ ws) = codes w ++ 32 ∷ join_words (v ∷ ws)

abbrev pub prompt_header : Text → CodeTaskSpec → Text
prompt_header task_prompt spec =
    codes
      "You are a code-edit bot. Emit exactly one unified diff inside a single ```diff fence. No other file writes, no shell. Paths relative to repo root (a/ b/ prefixes). Keep the diff minimal and complete.\n\n"
    ++ (codes "Task: "
        ++ (task_prompt
            ++ (codes "\nBase: "
                ++ (codes (if spec.base_sha is "" then "(fresh snapshot)" else spec.base_sha)
                    ++ (codes "\nTests: "
                        ++ (join_words spec.test_cmd
                            ++ (codes "\n"
                                ++ ((if spec.use_tools
                                      then codes
                                          "TOOLS: you have file tools. Use single-line JSON calls ({\"op\":\"read\"|\"edit\"|\"write\"|\"bash\"|\"done\"}) to inspect, edit, and test locally before emitting the final diff.\n"
                                      else [])
                                    ++ codes "\nFiles:\n"))))))))

abbrev pub file_chunk : String → Text → Text
file_chunk path content =
    codes "\n--- file: " ++ (codes path ++ (codes " ---\n" ++ (content ++ codes "\n")))

abbrev pub truncated_mark : Text
truncated_mark = codes "\n[truncated]\n"

-- The files that fit, in order; the first that does not is cut, if more than 200 characters are left.
unfoldable pub pack_files : ℕ → ℕ → List (String × Text) → Text
pack_files budget used [] = []
pack_files budget used ((path, content) ∷ files) =
    let chunk = file_chunk path content in
    let rest = pack_files budget (used + length chunk) files in
    if ltb budget (used + length chunk)
    then (if ltb 200 (budget - used) then take (budget - used) chunk ++ truncated_mark else [])
    else chunk ++ rest

unfoldable pub build_code_prompt : Text → CodeTaskSpec → ℕ → Text
unfolding pack_files join_words
build_code_prompt task_prompt spec budget =
    let header = prompt_header task_prompt spec in
    header ++ pack_files budget (length header) spec.files
