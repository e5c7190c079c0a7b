-- ===== src/Checkout/Hunks.antt =====
-- scheduler/workspaces.py: `_normalize_hunk_headers`, which writes the ranges into bare hunk headers,
-- and `apply_patch`. `is_digit` is the class `\d` of Python's regular expressions; `patch` is the
-- program patch(1), where it is installed.
use clique.Prelude.{
  ℕ, zero, suc, ◌+◌, ◌/◌, ◌%◌, Bool, true, false, not, ◌&&◌, ◌||◌, Option, none, some, List, [],
  ◌∷◌, ◌++◌, length, map, select, take, drop, ltb, ◌==◌, if◌then◌else◌,
}
use clique.Prelude.Int.{ℤ, pos, negsuc, ◌+ℤ◌, ◌-ℤ◌}
use clique.Types.{Text}
use clique.Texts.{is_prefix, same_text, is_space, strip}
use clique.Dict.Keyed.{fetch, store}
use clique.Live.{codes}
use clique.Tools.{Parts, Files, text_at, put_text}
use clique.Harness.{plain_lines}
use clique.Checkout.{
  Result, ok, err, bad_task_id, no_workspace, patch_conflict, Dirs, is_task_id, starts,
  apply_simple,
}

-- `str(n)`; the fuel is above the number.
unfoldable pub digits : ℕ → ℕ → Text
digits zero n = []
digits (suc k) n =
    let front = digits k (n / 10) in if ltb n 10 then (48 + n) ∷ [] else front ++ (48 + n % 10) ∷ []

abbrev pub decimal : ℕ → Text
decimal n = digits (suc n) n

abbrev pub signed_decimal : ℤ → Text
signed_decimal (pos n) = decimal n
signed_decimal (negsuc n) = 45 ∷ decimal (suc n)

-- A path without its first part, where it has two
unfoldable pub after_slash : Text → Option Text
after_slash [] = none
after_slash (c ∷ t) = if c == 47 then some t else after_slash t

unfoldable pub patched_path : Text → Text
unfolding after_slash strip
patched_path line =
    let path = strip is_space (drop 4 line) in
    elim (after_slash path) [ none ↦ path | some rel ↦ rel ]

-- `line.startswith(("@@", "--- ", "+++ ", "diff "))`
abbrev pub ends_body : Text → Bool
ends_body l = starts "@@" l || starts "--- " l || starts "+++ " l || starts "diff " l

-- The lines of a hunk, as they stand
unfoldable pub raw_body : List Text → List Text
unfolding is_prefix
raw_body [] = []
raw_body (l ∷ ls) = let rest = raw_body ls in if ends_body l then [] else l ∷ rest

-- An empty line is a context line whose space was stripped.
abbrev pub spaced : Text → Text
spaced [] = 32 ∷ []
spaced (c ∷ t) = c ∷ t

abbrev keep_front : Text → List Text → List Text
keep_front l [] = if same_text l (32 ∷ []) then [] else l ∷ []
keep_front l (m ∷ ms) = l ∷ m ∷ ms

-- Without the blank lines at the end
unfoldable pub without_blanks : List Text → List Text
unfolding same_text
without_blanks [] = []
without_blanks (l ∷ ls) = keep_front l (without_blanks ls)

abbrev pub is_over : List Text → Bool
is_over [] = true
is_over (l ∷ ls) = false

-- `body`; the blank lines at its end go where the diff ends with it.
unfoldable pub hunk_body : List Text → List Text
unfolding raw_body without_blanks
hunk_body ls =
    let raw = raw_body ls in
    let body = map spaced raw in
    if is_over (drop (length raw) ls) then without_blanks body else body

abbrev pub is_old : Text → Bool
is_old b = starts " " b || starts "-" b

abbrev pub is_new : Text → Bool
is_new b = starts " " b || starts "+" b

unfoldable pub old_side : List Text → List Text
unfolding is_prefix
old_side body = map (drop 1) (select is_old body)

unfoldable pub same_lines : List Text → List Text → Bool
unfolding same_text
same_lines [] [] = true
same_lines (a ∷ ls) (b ∷ ms) = same_text a b && same_lines ls ms
same_lines _ _ = false

-- The first place from `k` on at which the lines stand in the rest of the file
unfoldable pub find_lines : ℕ → List Text → List Text → Option ℕ
unfolding same_lines
find_lines k old [] = if same_lines (take (length old) []) old then some k else none
find_lines k old (l ∷ ls) =
    let later = find_lines (k + 1) old ls in
    if same_lines (take (length old) (l ∷ ls)) old then some k else later

-- What the loop knows of the file that it is at
pub record Place : Type 0 where
  pub file_lines : List Text
  pub search_from : ℕ
  pub delta : ℤ

abbrev pub header_of : ℕ → ℕ → ℤ → ℕ → Text
header_of old_start old_len new_start new_len =
    codes "@@ -"
    ++ (decimal old_start
        ++ (codes ","
            ++ (decimal old_len
                ++ (codes " +"
                    ++ (signed_decimal new_start
                        ++ (codes "," ++ (decimal new_len ++ codes " @@")))))))

-- The header of a bare hunk and the place behind it, where its old lines are found.
unfoldable pub locate : List Text → Place → Option (Text × Place)
unfolding old_side find_lines digits ◌+ℤ◌ ◌-ℤ◌ is_prefix
locate body p =
    let old = old_side body in
    let new_len = length (select is_new body) in
    let moved = p.delta +ℤ (pos new_len -ℤ pos (length old)) in
    if is_over old
    then some (header_of 0 0 (pos 1 +ℤ p.delta) new_len, record p { delta = moved })
    else (elim (find_lines p.search_from old (drop p.search_from p.file_lines)) [
      | none ↦ none
      | some k ↦ some (
        header_of (k + 1) (length old) (pos (k + 1) +ℤ p.delta) new_len,
        record p { search_from = k + length old; delta = moved },
      )
    ])

module _ (is_digit : ℕ → Bool) (resolve : Text → Parts) where
  abbrev first_is_digit : Text → Bool
  first_is_digit [] = false
  first_is_digit (c ∷ t) = is_digit c

  -- A hunk header that does not begin as `_GOOD_HUNK_RE`
  unfoldable pub is_bare : Text → Bool
  unfolding is_prefix
  is_bare l = starts "@@" l && not (starts "@@ -" l && first_is_digit (drop 4 l))

  abbrev pub opened : Text → Files → Place
  opened line fs = record {
    file_lines = elim (text_at (resolve (patched_path line)) fs) [
      | none ↦ []
      | some t ↦ plain_lines t
    ];
    search_from = 0;
    delta = pos 0;
  }

  -- The loop; the number is what is left of a body that was written already.
  unfoldable pub repair : ℕ → Place → Files → List Text → List Text
  unfolding is_bare hunk_body raw_body locate patched_path text_at plain_lines is_prefix
  repair n p fs [] = []
  repair (suc n) p fs (l ∷ ls) = repair n p fs ls
  repair zero p fs (l ∷ ls) = elim (starts "+++ " l) [
    | true ↦ l ∷ repair zero (opened l fs) fs ls
    | false ↦ elim (is_bare l) [
      | false ↦ l ∷ repair zero p fs ls
      | true ↦ elim (locate (hunk_body ls) p) [
        | none ↦ l ∷ repair zero p fs ls
        | some h ↦ h.0 ∷ (hunk_body ls ++ repair (length (raw_body ls)) h.1 fs ls)
      ]
    ]
  ]

  abbrev pub no_place : Place
  no_place = record { file_lines = []; search_from = 0; delta = pos 0 }

  -- `"\n".join(lines)`
  unfoldable pub join_lines : List Text → Text
  join_lines [] = []
  join_lines (l ∷ []) = l
  join_lines (l ∷ m ∷ ls) = l ++ (10 ∷ join_lines (m ∷ ls))

  unfoldable pub normalize_hunk_headers : Text → Files → Text
  unfolding repair join_lines plain_lines
  normalize_hunk_headers diff fs =
      join_lines (repair 0 no_place fs (plain_lines diff)) ++ codes "\n"

-- What patch(1) does: the dry run fails, or the run fails and leaves files, or all is well.
pub data PatchRun : Type 0 where
  refused : PatchRun
  broke patched : Files → PatchRun

module _ (is_digit : ℕ → Bool) (resolve : Text → Parts)
    (patch : Option (Text → Files → PatchRun)) where
  abbrev pub ran : PatchRun → Files → Result {0} Unit × Files
  ran refused fs = (err patch_conflict, fs)
  ran (broke fs') fs = (err patch_conflict, fs')
  ran (patched fs') fs = (ok tt, fs')

  -- In the directory of the task
  unfoldable pub apply_in : Text → Files → Result {0} Unit × Files
  unfolding normalize_hunk_headers apply_simple put_text
  apply_in diff fs =
      let diff' = normalize_hunk_headers is_digit resolve diff fs in
      let fs' = put_text (resolve (codes ".harness.patch")) diff' fs in
      elim patch [ none ↦ apply_simple resolve diff' fs' | some run ↦ ran (run diff' fs') fs' ]

  unfoldable pub apply_patch : Text → Text → Dirs → Result {0} Unit × Dirs
  unfolding is_task_id fetch store same_text apply_in
  apply_patch tid diff dirs =
      if is_task_id tid
      then (elim (fetch same_text tid dirs) [
        | none ↦ (err no_workspace, dirs)
        | some fs ↦ ((apply_in diff fs).0, store same_text tid (apply_in diff fs).1 dirs)
      ])
      else (err bad_task_id, dirs)
