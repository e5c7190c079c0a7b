-- ===== src/Context/Plan.antt =====
-- scheduler/context_store.py, `compaction_plan`: the payload of a summary, where turns overflow.
use clique.Prelude.{ℕ, String, Option, none, some, List, [], ◌∷◌, ◌++◌}
use clique.Types.{Text, ChatMessage}
use clique.Texts.{is_space, strip}
use clique.Live.{codes}
use clique.Context.{
  Turn, Item, Store, overflow_turns, latest_compaction, iter_turns, compaction_covers,
}

abbrev pub compact_instructions : Text
compact_instructions =
    codes
      "Summarize this conversation for a coding assistant. Preserve file paths, identifiers, unresolved errors, and the current goal. Drop chit-chat. Do not keep full file dumps."

-- A turn as the line `role: content`
abbrev pub turn_line : Item → Text
turn_line i = codes i.1.role ++ (codes ": " ++ i.1.content)

unfoldable pub turn_lines : List Item → Text
turn_lines [] = []
turn_lines (i ∷ []) = turn_line i
turn_lines (i ∷ j ∷ rest) = turn_line i ++ (10 ∷ turn_lines (j ∷ rest))

-- The part of the text that carries the last summary over
unfoldable pub previous_part : Option Turn → Text
unfolding strip
previous_part none = []
previous_part (some t) = elim (strip is_space t.content) [
  | [] ↦ []
  | c ∷ l ↦ codes "Previous summary:\n" ++ ((c ∷ l) ++ codes "\n\n")
]

abbrev pub message : String → Text → ChatMessage
message role content = record { role = codes role; content = content }

unfoldable pub compaction_plan : String → ℕ → ℕ → Store → Option ((ℕ × ℕ) × List ChatMessage)
unfolding compaction_covers overflow_turns latest_compaction iter_turns turn_lines previous_part
compaction_plan sid context_window max_output store =
    elim (compaction_covers sid context_window max_output store) [
      | none ↦ none
      | some covers ↦ some (
        covers,
        message "system" compact_instructions
            ∷ message "user" (
                previous_part (latest_compaction none (iter_turns sid store))
                ++ (codes "Conversation to fold in:\n"
                    ++ turn_lines (overflow_turns sid context_window max_output store)))
            ∷ [],
      )
    ]
