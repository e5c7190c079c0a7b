-- ===== src/Executor/Tests.antt =====
-- The loops of node/executor.py on a concrete model.
use clique.Prelude.{
  ℕ, suc, String, ◌≡◌, ◌≤◌, refl, false, Option, none, some, List, [], ◌∷◌, ◌++◌, length,
}
use clique.Types.{Text}
use clique.Texts.{is_space}
use clique.Live.{codes}
use clique.Tools
use clique.Tools.{
  Call, Json, call, Files, Parts, ToolFault, key_error, parse_tool_calls, parse_lines,
}
use clique.Executor.{socket, collect_streaming, rounds, raised}
use clique.Executor.Progress.{texts, Follows, collect_streaming-Follows}
use clique.Executor.Rounds.{rounds-key_error}
use clique.Executor.Agentic.{FunctionCall, Msg, said, agentic_rounds, agentic_max_rounds}
use clique.Executor.Replies.{Exchange, agentic_rounds-Exchange}

abbrev deltas : List (Text × ℕ)
deltas = (codes "a = ", 10) ∷ (codes "1", 900) ∷ []

collect_streaming-Follows_example :
    (texts (collect_streaming socket (codes "[step 0] ") 0 deltas).1
      ≡ codes "[step 0] " ++ (collect_streaming socket (codes "[step 0] ") 0 deltas).0)
    × Follows 0 (collect_streaming socket (codes "[step 0] ") 0 deltas).1
collect_streaming-Follows_example = collect_streaming-Follows (codes "[step 0] ") 0 deltas

-- A model that always answers with the same line, which reads no path.
abbrev line : Text
line = codes "{\"op\":\"read\"}"

abbrev infer : ℕ → Text → Text
infer step transcript = line

abbrev bare_read : Call
bare_read = record {
  op = "read";
  path = none;
  old = none;
  new = none;
  content = none;
  cmd = none;
  timeout_s = none;
}

abbrev loads : Text → Json
loads t = call bare_read

abbrev resolve : Parts → Option Parts
resolve p = some p

abbrev run_test : List String → ℕ → Files → Tools.Result (Text × Files)
run_test cmd timeout fs = Tools.err ToolFault.timeout

abbrev say : ToolFault → Text
say e = codes "failed"

abbrev drift : ℕ → Text
drift step = []

abbrev listed : List Parts → Text
listed names = codes "[]"

parsed : parse_tool_calls loads line ≡ Tools.ok (bare_read ∷ [])
unfolding parse_tool_calls is_space
parsed = refl

rounds-key_error_example :
    rounds infer loads resolve run_test say drift (suc 5) 0 (codes "TOOLS: go") [] []
    ≡ raised key_error
rounds-key_error_example =
    rounds-key_error infer loads resolve run_test say drift 5 0 (codes "TOOLS: go") [] [] bare_read
      [] parsed refl refl refl

-- A model that asks for one call, until it has a reply.
abbrev one_call : FunctionCall
one_call = record { call_id = "c1"; name = "clique_status"; arguments = codes "{}" }

abbrev infer_tools : List Msg → Text × List FunctionCall
infer_tools [] = ([], [])
infer_tools (m ∷ []) = ([], one_call ∷ [])
infer_tools (m ∷ k ∷ ms) = (codes "done", [])

abbrev relay : List Msg → FunctionCall → Text
relay transcript c = codes "ok"

abbrev call_name : ℕ → ℕ → String
call_name rnd i = "call"

abbrev start : List Msg
start = said "user" (codes "status?") ∷ []

agentic_rounds-Exchange_example :
    (added : List Msg) × (((agentic_rounds infer_tools relay call_name
          (codes "again")
          agentic_max_rounds
          0
          false
          start
          []).0
        ≡ start ++ added)
      × (Exchange 8 false added × (length added ≤ 40)))
agentic_rounds-Exchange_example =
    agentic_rounds-Exchange infer_tools relay call_name (codes "again") start
