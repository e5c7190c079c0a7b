-- ===== src/Executor/Agentic.antt =====
-- node/executor.py, `_execute_agentic`: the loop over function calls. The inference, the relay of a call
-- to the server with the text of its result or error, and the format `call_{rnd}_{i}` are parameters.
use clique.Prelude.{
  ℕ, zero, suc, String, ◌+◌, Bool, true, false, not, ◌&&◌, List, [], ◌∷◌, ◌++◌, length, take, ltb,
  if◌then◌else◌, ◌is◌,
}
use clique.Types.{Text}
use clique.Texts.{is_empty}
use clique.Live.{codes}

pub record FunctionCall : Type 0 where
  pub call_id : String
  pub name : String
  pub arguments : Text

-- A message of the transcript: text under a role, calls of the assistant under their identifiers, or
-- the result of a call.
pub data Msg : Type 0 where
  said : String → Text → Msg
  asks : Text → List (String × FunctionCall) → Msg
  reply : Text → String → Msg

abbrev pub agentic_max_rounds : ℕ
agentic_max_rounds = 8

-- `len(content) > 40`, which an empty content is not
abbrev pub is_narration : Text → Bool
is_narration content = ltb 40 (length content)

module _ (infer_tools : List Msg → Text × List FunctionCall)
    (relay : List Msg → FunctionCall → Text) (call_name : ℕ → ℕ → String) (nudge : Text) where
  -- `c.call_id or f"call_{rnd}_{i}"`, for the calls from the i-th on
  unfoldable pub with_ids : ℕ → ℕ → List FunctionCall → List (String × FunctionCall)
  with_ids rnd i [] = []
  with_ids rnd i (c ∷ cs) =
      (if c.call_id is "" then call_name rnd i else c.call_id, c) ∷ with_ids rnd (i + 1) cs

  -- The replies of the calls, one after the other, on the transcript.
  unfoldable pub answer_all : List (String × FunctionCall) → List Msg → List Msg
  answer_all [] transcript = transcript
  answer_all ((id, c) ∷ cs) transcript =
      answer_all cs (transcript ++ reply (take 8000 (relay transcript c)) id ∷ [])

  -- The rounds that are left, the number of the round, whether the repair was made, the transcript and
  -- the content so far.
  unfoldable pub agentic_rounds : ℕ → ℕ → Bool → List Msg → Text → List Msg × Text
  unfolding with_ids answer_all
  agentic_rounds zero rnd repaired transcript final = (transcript, final)
  agentic_rounds (suc n) rnd repaired transcript final =
      let content = (infer_tools transcript).0 in
      let calls = (infer_tools transcript).1 in
      elim calls [
        | [] ↦
            let retried =
              agentic_rounds n (rnd + 1) true
                (transcript ++ said "assistant" content ∷ said "user" nudge ∷ []) final in
            if not repaired && is_narration content then retried else (transcript, content)
        | c ∷ cs ↦
            agentic_rounds n (rnd + 1) repaired
              (answer_all (take 4 (with_ids rnd 0 (c ∷ cs)))
                (transcript ++ asks content (with_ids rnd 0 (c ∷ cs)) ∷ []))
              content
      ]

  -- `final_content or "(no answer)"`
  unfoldable pub execute_agentic : List Msg → Text
  unfolding agentic_rounds
  execute_agentic start =
      let out = (agentic_rounds agentic_max_rounds 0 false start []).1 in
      if is_empty out then codes "(no answer)" else out
