-- ===== src/Executor/Rounds.antt =====
-- node/executor.py: how the loop over tool calls ends.
use clique.Prelude.{
  ℕ, suc, String, ◌<◌, ◌≡◌, refl, true, false, ◌||◌, Option, none, List, ◌∷◌, ◌++◌, any, Bool-cases,
  inl, inr, ◌is◌,
}
use clique.Types.{Text}
use clique.Tools
use clique.Tools.{
  Call, Json, Files, Parts, ToolFault, key_error, is_tool_error, parse_tool_calls, apply_call, need,
}
use clique.Executor.{
  Outcome, finished, raised, Observed, observed, thrown, is_done, apply_calls, Round, stop, again,
  fail, answer_calls, round, rounds, sandbox_note,
}

module _ (infer : ℕ → Text → Text) (loads : Text → Json) (resolve : Parts → Option Parts)
    (run_test : List String → ℕ → Files → Tools.Result (Text × Files)) (say : ToolFault → Text)
    (drift_note : ℕ → Text) where
  -- The outcomes of a loop of n rounds: the output of one of its inferences, or an error that is no
  -- `ToolError`.
  abbrev Allowed : ℕ → Outcome → Type 0
  Allowed n (finished out fs) = (k : ℕ) × ((t : Text) × ((k < n) × (out ≡ infer k t)))
  Allowed n (raised e) = is_tool_error e ≡ false

  abbrev NoToolError : Observed → Type 0
  NoToolError (observed obs fs) = Unit
  NoToolError (thrown e) = is_tool_error e ≡ false

  -- A round fails only by an error that is no `ToolError`.
  abbrev Fair : Round infer loads resolve run_test say drift_note → Type 0
  Fair (fail e) = is_tool_error e ≡ false
  Fair stop = Unit
  Fair (again t fs) = Unit

  -- The output of an inference before a step.
  abbrev Earlier : ℕ → Text → Type 0
  Earlier step out = (k : ℕ) × ((t : Text) × ((k < step) × (out ≡ infer k t)))

  -- A seed fails only by an error that is no `ToolError`.
  abbrev Seeded : Tools.Result Files → Type 0
  Seeded (Tools.ok fs) = Unit
  Seeded (Tools.err e) = is_tool_error e ≡ false

  module _ (listed : List Parts → Text) where
    -- The outcomes of a task of n rounds: the output of one of its inferences with the comment on the files
    -- that the sandbox then has, or an error that is no `ToolError`.
    abbrev pub Noted : ℕ → Outcome → Type 0
    Noted n (finished out fs) =
        (k : ℕ) × ((t : Text) × ((k < n)
            × (out
                ≡ infer k t ++ sandbox_note infer loads resolve run_test say drift_note listed fs)))
    Noted n (raised e) = is_tool_error e ≡ false

  apply_call-missing :
      (c : Call) (fs : Files)
      → ((c.op is "read") || (c.op is "edit") || (c.op is "write")) ≡ true
      → c.path ≡ none
      → apply_call resolve run_test c fs ≡ Tools.err key_error
  unfolding apply_call
  apply_call-missing c fs op missing = elim (Bool-cases (c.op is "read")) [
    | inl r ↦ rw (apply_call, r, missing) refl
    | inr r ↦ elim (Bool-cases (c.op is "edit")) [
      | inl e ↦ rw (apply_call, r, e, missing) refl
      | inr e ↦ let w = rw (r, e) at op in rw (apply_call, r, e, w, missing) refl
    ]
  ]

  -- A call of `read`, `edit` or `write` without its path, first in a round without "done", ends the task
  -- with an error that the loop does not catch.
  pub rounds-key_error :
      (n step : ℕ) (t final : Text) (fs : Files) (c : Call) (cs : List Call)
      → parse_tool_calls loads (infer step (t ++ drift_note step)) ≡ Tools.ok (c ∷ cs)
      → any is_done (c ∷ cs) ≡ false
      → ((c.op is "read") || (c.op is "edit") || (c.op is "write")) ≡ true
      → c.path ≡ none
      → rounds infer loads resolve run_test say drift_note (suc n) step t final fs
        ≡ raised key_error
  unfolding rounds round apply_calls
  rounds-key_error n step t final fs c cs parsed going op missing =
      rw (round, parsed, answer_calls, going, apply_calls, apply_call-missing c fs op missing) refl
