-- ===== src/Executor/Replies.antt =====
-- node/executor.py: the transcript of the loop over function calls.
use clique.Prelude.{
  ℕ, zero, suc, String, ◌+◌, ◌*◌, ◌≤◌, ◌≡◌, refl, sym, ap, ◌∙◌, Bool, true, false, not, ◌&&◌, List,
  [], ◌∷◌, ◌++◌, arith, length, length-append, take, Bool-cases, inl, inr, subst, ◌⊎◌,
}
use mathlib.Core.List.{append_assoc, append-nil}
use clique.Types.{Text}
use clique.Executor.Agentic.{
  FunctionCall, Msg, said, asks, reply, is_narration, with_ids, answer_all, agentic_rounds,
  agentic_max_rounds,
}

-- One reply for each call, under its identifier and in order.
abbrev pub AreReplies : List (String × FunctionCall) → List Msg → Type 0
AreReplies [] [] = Unit
AreReplies ((id, c) ∷ cs) (reply content id' ∷ ms) = (id' ≡ id) × AreReplies cs ms
AreReplies _ _ = ⊥

-- What the loop adds to a transcript in a number of rounds at most, one for each request with the
-- replies of its first four calls, and one for the repair; the Boolean says that the repair was made
-- before.
pub data Exchange : ℕ → Bool → List Msg → Type 0 where
  over : {n : ℕ} {b : Bool} → Exchange n b []
  repair :
      {n : ℕ} {rest : List Msg} (content nudge : Text)
      → Exchange n true rest
      → Exchange (suc n) false (said "assistant" content ∷ said "user" nudge ∷ rest)
  request :
      {n : ℕ} {b : Bool} {rest all : List Msg} (content : Text)
      (calls : List (String × FunctionCall)) (rs : List Msg)
      → AreReplies (take 4 calls) rs
      → Exchange n b rest
      → all ≡ rs ++ rest
      → Exchange (suc n) b (asks content calls ∷ all)

module _ (infer_tools : List Msg → Text × List FunctionCall)
    (relay : List Msg → FunctionCall → Text) (call_name : ℕ → ℕ → String) (nudge : Text) where
  answer_all-AreReplies :
      (cs : List (String × FunctionCall)) (transcript : List Msg)
      → (rs : List Msg) × ((answer_all infer_tools relay call_name nudge cs transcript
            ≡ transcript ++ rs)
          × (AreReplies cs rs × (length rs ≤ length cs)))
  unfolding answer_all
  answer_all-AreReplies [] transcript = ([], (sym (append-nil transcript), (tt, omega arith)))
  answer_all-AreReplies ((id, c) ∷ cs) transcript =
      let m = reply (take 8000 (relay transcript c)) id in
      let (rs, (same, (are, size))) = answer_all-AreReplies cs (transcript ++ m ∷ []) in
      (m ∷ rs, (same ∙ append_assoc transcript (m ∷ []) rs, ((refl, are), omega (arith, size))))

  length-take_4 : (cs : List (String × FunctionCall)) → length (take 4 cs) ≤ 4
  length-take_4 [] = omega arith
  length-take_4 (a ∷ []) = omega arith
  length-take_4 (a ∷ b ∷ []) = omega arith
  length-take_4 (a ∷ b ∷ c ∷ []) = omega arith
  length-take_4 (a ∷ b ∷ c ∷ d ∷ cs) = omega arith

  -- What the rounds have added, in at most five messages each.
  abbrev Adds : ℕ → Bool → List Msg → List Msg → Type 0
  Adds n b transcript after =
      (added : List Msg) × ((after ≡ transcript ++ added)
        × (Exchange n b added × (length added ≤ n * 5)))

  repair-Adds :
      (n : ℕ) (b : Bool) (content : Text) (transcript after : List Msg)
      → b ≡ false
      → Adds n true (transcript ++ said "assistant" content ∷ said "user" nudge ∷ []) after
      → Adds (suc n) b transcript after
  repair-Adds n b content transcript after first (added, (same, (ex, size))) = (
    said "assistant" content ∷ said "user" nudge ∷ added,
    (
      same ∙ append_assoc transcript (said "assistant" content ∷ said "user" nudge ∷ []) added,
      (
        subst (λ k. Exchange (suc n) k (said "assistant" content ∷ said "user" nudge ∷ added))
            (sym first) (repair content nudge ex),
        omega (arith, size),
      ),
    ),
  )

  request-Adds :
      (n : ℕ) (b : Bool) (content : Text) (calls : List (String × FunctionCall))
      (transcript after : List Msg)
      → Adds n b
          (answer_all infer_tools relay call_name nudge
            (take 4 calls)
            (transcript ++ asks content calls ∷ []))
          after
      → Adds (suc n) b transcript after
  request-Adds n b content calls transcript after (added, (same, (ex, size))) =
      let start = transcript ++ asks content calls ∷ [] in
      let (rs, (answered, (are, few))) = answer_all-AreReplies (take 4 calls) start in
      let four = length-take_4 calls in
      let both = length-append rs added in
      (
        asks content calls ∷ (rs ++ added),
        (
          same
              ∙ (ap (λ t. t ++ added) answered
                  ∙ (append_assoc start rs added
                      ∙ append_assoc transcript (asks content calls ∷ []) (rs ++ added))),
          (request content calls rs are ex refl, omega (arith, size, few, four, both)),
        ),
      )

  calls-cases :
      (l : List FunctionCall)
      → (l ≡ []) ⊎ ((c : FunctionCall) × ((cs : List FunctionCall) × (l ≡ c ∷ cs)))
  calls-cases [] = inl refl
  calls-cases (c ∷ cs) = inr (c, (cs, refl))

  agentic_rounds-Adds :
      (n rnd : ℕ) (b : Bool) (transcript : List Msg) (final : Text)
      → Adds n b transcript
          (agentic_rounds infer_tools relay call_name nudge n rnd b transcript final).0
  unfolding agentic_rounds
  agentic_rounds-Adds zero rnd b transcript final =
      ([], (sym (append-nil transcript), (over, omega arith)))
  agentic_rounds-Adds (suc n) rnd b transcript final =
      elim (calls-cases (infer_tools transcript).1) [
        | inr (c, (cs, e)) ↦
            let calls = with_ids infer_tools relay call_name nudge rnd 0 (c ∷ cs) in
            let content = (infer_tools transcript).0 in
            rw (agentic_rounds, e)
              (request-Adds n b content calls transcript _ (
                agentic_rounds-Adds n (rnd + 1) b
                  (answer_all infer_tools relay call_name nudge (take 4 calls)
                    (transcript ++ asks content calls ∷ []))
                  content))
        | inl e ↦
            let content = (infer_tools transcript).0 in
            elim (Bool-cases (not b && is_narration content)) [
              | inl y ↦
                  let retried = transcript ++ said "assistant" content ∷ said "user" nudge ∷ [] in
                  rw (agentic_rounds, e, y)
                    (repair-Adds n b content transcript _ (first b (is_narration content) y)
                      (agentic_rounds-Adds n (rnd + 1) true retried final))
              | inr k ↦
                  rw (agentic_rounds, e, k) ([], (sym (append-nil transcript), (over, omega arith)))
            ]
      ]
    where
      first : (b c : Bool) → (not b && c) ≡ true → b ≡ false
      first b c h = ground arith

  -- The loop adds at most eight rounds to the transcript. Each is a request for calls, followed by one
  -- reply for each of its first four calls, under their identifiers and in order, and by none for the
  -- others; but one round at most is an answer without a call that is sent back. So the loop adds at most
  -- forty messages.
  pub agentic_rounds-Exchange :
      (start : List Msg)
      → (added : List Msg) × (((agentic_rounds infer_tools relay call_name nudge agentic_max_rounds
              0 false start []).0
            ≡ start ++ added)
          × (Exchange 8 false added × (length added ≤ 40)))
  agentic_rounds-Exchange start = agentic_rounds-Adds 8 0 false start []
