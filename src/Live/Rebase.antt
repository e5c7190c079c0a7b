-- ===== src/Live/Rebase.antt =====
-- scheduler/workspace.py, `_rebase_ops`: line numbers shifted over the operations that came between.
use Prim.Native.Nat.{max}
use clique.Prelude.{
  ℕ, String, Bool, Option, none, some, List, [], ◌∷◌, length, select, map, ltb, if◌then◌else◌,
}
use clique.Prelude.Int.{ℤ, pos, ◌+ℤ◌, ◌-ℤ◌, ltb_ℤ}
use clique.Types.{Text}
use clique.Live.Lines.{
  Kind, insert, delete, replace_file, Op, line_of, count_of, text_of, split_lines,
}

pub record Entry : Type 0 where
  pub seq : ℕ
  pub version : ℕ
  pub ops : List Op
  pub actor : String
  pub base : ℕ
  pub rebased : Bool

-- `len(text.splitlines() or [""])`
unfoldable pub line_count : Text → ℕ
unfolding split_lines
line_count t = max 1 (length (split_lines t))

abbrev pub max_ℤ : ℤ → ℤ → ℤ
max_ℤ a b = if ltb_ℤ a b then b else a

-- The line that `_rebase_ops` writes into an operation at `line`, if it writes one, for `hop`.
unfoldable pub moved : Kind → Op → ℤ → Option ℤ
unfolding line_count
moved insert hop line =
    if ltb_ℤ line (line_of hop) then none else some (line +ℤ pos (line_count (text_of hop)))
moved delete hop line =
    if ltb_ℤ (line_of hop) line then some (max_ℤ (line_of hop) (line -ℤ count_of hop)) else none
moved _ hop line = none

-- A full replacement is not shifted.
unfoldable pub shift_kind : Kind → Op → Op → Op
unfolding moved
shift_kind replace_file hop op = op
shift_kind _ hop op = elim (moved hop.kind hop (line_of op)) [
  | none ↦ op
  | some l ↦ record op { line = some l }
]

unfoldable pub shift : Op → Op → Op
unfolding shift_kind
shift hop op = shift_kind op.kind hop op

unfoldable pub over_ops : List Op → List Op → List Op
unfolding shift
over_ops [] out = out
over_ops (hop ∷ hops) out = over_ops hops (map (shift hop) out)

unfoldable pub over_entries : List Entry → List Op → List Op
unfolding over_ops
over_entries [] out = out
over_entries (h ∷ hs) out = over_entries hs (over_ops h.ops out)

-- The entries that the client has not seen.
abbrev pub newer : ℕ → List Entry → List Entry
newer base = select (λ h. ltb base h.version)

unfoldable pub rebase_ops : List Entry → ℕ → List Op → List Op
unfolding over_entries
rebase_ops history base ops = over_entries (newer base history) ops
