-- ===== src/Context/Tests.antt =====
-- The context store of scheduler/context_store.py on concrete logs.
use clique.Prelude.{ℕ, String, ◌+◌, ◌≤◌, ◌≡◌, refl, some, false, [], ◌∷◌, arith}
use clique.Context.{Turn, TurnRow, Store, safety_tokens, tokens, compile, append_turn}
use clique.Context.Budget.{compile-fits}
use clique.Context.Append.{IsAppended, append_turn-iter_turns}

abbrev said : String → ℕ → Turn
said role code = record { role = role; content = code ∷ []; is_compaction = false; covers = [] }

abbrev said_row : String → ℕ → String → TurnRow
said_row sid version role = record {
  session_id = sid;
  version = version;
  turn = said role 97;
  created_at = 5;
}

abbrev log : Store
log = said_row "a" 1 "user" ∷ said_row "b" 1 "user" ∷ said_row "a" 2 "assistant" ∷ []

abbrev grown : Store
grown =
    said_row "a" 1 "user"
    ∷ said_row "b" 1 "user"
    ∷ said_row "a" 2 "assistant"
    ∷ (record { session_id = "a"; version = 3; turn = said "user" 98; created_at = 9 })
    ∷ []

grows : append_turn "a" 2 (said "user" 98) 9 log ≡ some (3, grown)
unfolding append_turn
grows = refl

compile-fits_example : tokens (compile "a" 4096 1024 grown) + 1024 + safety_tokens ≤ 4096
compile-fits_example = compile-fits "a" grown 4096 1024 (omega arith)

append_turn-iter_turns_example : IsAppended "a" "b" 2 (said "user" 98) log (3, grown)
append_turn-iter_turns_example = append_turn-iter_turns "a" "b" 2 (said "user" 98) 9 log refl grows
