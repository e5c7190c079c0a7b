-- ===== src/Live/Lines.antt =====
-- scheduler/workspace.py, `_apply_ops`: texts as lines, and the operations of a patch.
use Prim.Native.Nat.{min}
use clique.Prelude.{
  ℕ, suc, ◌+◌, ◌-◌, ◌≡◌, refl, Bool, false, not, ◌&&◌, ◌||◌, Option, none, some, List, [], ◌∷◌,
  ◌++◌, arith, length, take, drop, leb, ◌==◌, if◌then◌else◌,
}
use clique.Prelude.Int.{ℤ, pos, negsuc}
use clique.Types.{Text}

-- The characters at which `str.splitlines` ends a line.
unfoldable pub is_break : ℕ → Bool
is_break c = (leb 10 c && leb c 13) || (leb 28 c && leb c 30) || c == 133 || c == 8232 || c == 8233

-- A line feed comes next.
feed_next : Text → Bool
feed_next [] = false
feed_next (c ∷ t) = c == 10

-- A carriage return before a line feed does not end its line.
unfoldable pub ends_line : ℕ → Text → Bool
unfolding is_break feed_next
ends_line c t = is_break c && not (c == 13 && feed_next t)

unfoldable pub push : ℕ → List Text → List Text
push c [] = (c ∷ []) ∷ []
push c (l ∷ ls) = (c ∷ l) ∷ ls

-- `text.splitlines(keepends=True)`
unfoldable pub split_lines : Text → List Text
unfolding push ends_line
split_lines [] = []
split_lines (c ∷ t) =
    let rest = split_lines t in if ends_line c t then (c ∷ []) ∷ rest else push c rest

-- `"".join(lines)`
unfoldable pub join : List Text → Text
join [] = []
join (l ∷ ls) = l ++ join ls

pub data Kind : Type 0 where
  insert delete replace_file unknown : Kind

-- The dictionary of one patch operation; a missing key is `none`.
pub record Op : Type 0 where
  pub kind : Kind
  pub line : Option ℤ
  pub text : Option Text
  pub count : Option ℤ

-- `int(op.get("line", 1))`, and so on
abbrev pub line_of : Op → ℤ
line_of op = elim op.line [ none ↦ pos 1 | some l ↦ l ]

abbrev pub count_of : Op → ℤ
count_of op = elim op.count [ none ↦ pos 1 | some c ↦ c ]

abbrev pub text_of : Op → Text
text_of op = elim op.text [ none ↦ [] | some t ↦ t ]

-- `max(0, min(line - 1, len(lines)))`
unfoldable pub index : ℤ → ℕ → ℕ
index (pos l) n = min (l - 1) n
index (negsuc l) n = 0

-- Where the slice `lines[idx:idx + count]` ends: a negative end counts from the back.
unfoldable pub slice_end : ℕ → ℤ → ℕ → ℕ
slice_end idx (pos c) n = min (idx + c) n
slice_end idx (negsuc c) n = if leb (suc c) idx then idx - suc c else n + idx - suc c

-- `ins.endswith("\n")`
unfoldable pub ends_with_feed : Text → Bool
ends_with_feed [] = false
ends_with_feed (c ∷ []) = c == 10
ends_with_feed (c ∷ d ∷ t) = ends_with_feed (d ∷ t)

-- The text of an insertion, with a line feed at its end unless it is empty.
unfoldable pub terminated : Text → Text
unfolding ends_with_feed
terminated [] = []
terminated (c ∷ t) = if ends_with_feed (c ∷ t) then c ∷ t else (c ∷ t) ++ 10 ∷ []

-- One round of the loop: it goes on with the lines, returns a text, or raises.
pub data Round : Type 0 where
  go : List Text → Round
  return : Text → Round
  raise : Round

unfoldable pub insert_at : ℕ → List Text → List Text → List Text
insert_at idx new lines = take idx lines ++ (new ++ drop idx lines)

-- `del lines[idx:end]`
unfoldable pub delete_to : ℕ → ℕ → List Text → List Text
delete_to idx end lines = if leb end idx then lines else take idx lines ++ drop end lines

unfoldable pub round : Kind → Op → List Text → Round
unfolding index slice_end split_lines terminated insert_at delete_to
round insert op lines =
    go (insert_at (index (line_of op) (length lines)) (split_lines (terminated (text_of op))) lines)
round delete op lines =
    let idx = index (line_of op) (length lines) in
    go (delete_to idx (slice_end idx (count_of op) (length lines)) lines)
round replace_file op lines = return (text_of op)
round unknown op lines = raise

-- `none` is the `ValueError` of an unknown operation.
unfoldable pub run_ops : List Op → List Text → Option Text
unfolding round join
run_ops [] lines = some (join lines)
run_ops (op ∷ ops) lines = elim (round op.kind op lines) [
  | go lines' ↦ run_ops ops lines'
  | return t ↦ some t
  | raise ↦ none
]

unfoldable pub apply_ops : Text → List Op → Option Text
unfolding run_ops split_lines
apply_ops text ops = run_ops ops (split_lines text)

pub join-push : (c : ℕ) (ls : List Text) → join (push c ls) ≡ c ∷ join ls
unfolding join push
join-push c [] = refl
join-push c (l ∷ ls) = refl

-- Splitting loses nothing.
pub join-split_lines : (t : Text) → join (split_lines t) ≡ t
unfolding split_lines join
join-split_lines [] = refl
join-split_lines (c ∷ t) = ground (arith, join-split_lines t, join-push c (split_lines t))
