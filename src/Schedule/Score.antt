-- ===== src/Schedule/Score.antt =====
-- scheduler/router.py: `_placement`, `_worker_payload` and `score`; common/types.py: `cluster_key` and
-- `est_prompt_tokens`.
use Prim.Native.Nat.{max}
use clique.Prelude.{
  ℕ, String, ◌+◌, ◌/◌, Bool, true, false, not, ◌&&◌, Option, none, some, List, [], ◌∷◌, ◌++◌,
  length, map, any, take, ltb, if◌then◌else◌, ◌is◌, holds,
}
use clique.Types.{
  Text, TaskType, chat, code_generation, code_edit, summarization, embedding, other, TaskRequest,
  ChatMessage, Session, Float, ModelSpec, ResourceSnapshot, NodeInfo,
}
use clique.Context
use clique.Context.{Message}
use clique.Live.{codes}

-- A text that is there and not empty.
abbrev pub is_set : Option String → Bool
is_set none = false
is_set (some s) = not (s is "")

abbrev pub or_none : Option Text → Option Text
or_none (some (c ∷ t)) = some (c ∷ t)
or_none _ = none

-- `_placement`: the cluster prefix and the preferred node; the session's cluster wins over the hint.
abbrev place : Option Text → Option Session → Option Text × Option String
place hint none = (or_none hint, none)
place hint (some s) =
    (elim s.cluster_key [ [] ↦ or_none hint | c ∷ t ↦ some (c ∷ t) ], s.pinned_node)

unfoldable pub placement : (String → Option Session) → TaskRequest → Option Text × Option String
placement find request = elim request.session_id [
  | none ↦ place request.model_hint none
  | some sid ↦ place request.model_hint (if sid is "" then none else find sid)
]

-- `"\n".join(f"{m.role}: {m.content}" for m in messages)`
unfoldable pub join_messages : List ChatMessage → Text
join_messages [] = []
join_messages (m ∷ []) = m.role ++ (codes ": " ++ m.content)
join_messages (m ∷ n ∷ ms) = m.role ++ (codes ": " ++ (m.content ++ 10 ∷ join_messages (n ∷ ms)))

abbrev to_chat : Message → ChatMessage
to_chat m = record { role = codes m.role; content = m.content }

unfoldable pub plain_payload : TaskRequest → Text × Option (List ChatMessage)
unfolding join_messages
plain_payload request = elim request.messages [
  | none ↦ (request.prompt, none)
  | some [] ↦ (request.prompt, none)
  | some (m ∷ ms) ↦ (join_messages (m ∷ ms), some (m ∷ ms))
]

abbrev compiled_or : TaskRequest → List ChatMessage → Text × Option (List ChatMessage)
compiled_or request [] = plain_payload request
compiled_or request (m ∷ ms) = (join_messages (m ∷ ms), some (m ∷ ms))

-- Of the given text, or else of what the request itself holds.
unfoldable pub est_prompt_tokens : TaskRequest → Option Text → ℕ
unfolding plain_payload
est_prompt_tokens request none = max 1 (length (plain_payload request).0 / 4)
est_prompt_tokens request (some text) = max 1 (length text / 4)

abbrev pub same_type : TaskType → TaskType → Bool
same_type chat chat = true
same_type code_generation code_generation = true
same_type code_edit code_edit = true
same_type summarization summarization = true
same_type embedding embedding = true
same_type other other = true
same_type _ _ = false

-- The parts of the reason text, each with the numbers that it shows.
pub data Reason (F : Type 0) : Type 0 where
  too_long pinned capability chat_capability no_capability short_prompt on_battery no_telemetry :
      Reason F
  size_fit : F → ℕ → Reason F
  cpu : F → Reason F
  decode : F → Reason F

module _ (fl : Float) where
  open fl use {F, of_nat, add, sub, mul, div, least, is_zero, show_g}

  unfoldable pub cluster_key : ModelSpec F → Text
  cluster_key m = elim m.artifact_hash [
    | some (c ∷ h) ↦ m.family ++ (codes ":" ++ take 12 (c ∷ h))
    | _ ↦ m.family ++ (codes "-" ++ (show_g m.parameter_count_b ++ (codes "b-" ++ m.quantization)))
  ]

  unfoldable pub worker_payload :
      Option Context.Store → TaskRequest → ModelSpec F → Text × Option (List ChatMessage)
  unfolding plain_payload
  worker_payload contexts request m = elim contexts [
    | none ↦ plain_payload request
    | some store ↦ elim request.session_id [
      | none ↦ plain_payload request
      | some sid ↦
          if request.record_turns && not (sid is "")
          then compiled_or request
              (map to_chat (Context.compile sid m.context_window request.max_output_tokens store))
          else plain_payload request
    ]
  ]

  abbrev Tally : Type 0
  Tally = F × List (Reason F)

  abbrev half : F → F
  half x = mul x (div (of_nat 1) (of_nat 2))

  abbrev gain : ℕ → Reason F → Tally → Tally
  gain n why (s, rs) = (add s (of_nat n), rs ++ why ∷ [])

  abbrev take_off : ℕ → Reason F → Tally → Tally
  take_off n why (s, rs) = (sub s (of_nat n), rs ++ why ∷ [])

  abbrev by_pin : Option String → String → Tally → Tally
  by_pin preferred nid acc =
      if is_set preferred && holds preferred nid then gain 5000 pinned acc else acc

  abbrev is_summary : TaskType → Bool
  is_summary t = same_type t summarization

  abbrev by_capability : TaskRequest → ModelSpec F → Tally → Tally
  by_capability request m acc =
      if any (same_type request.task_type) m.capabilities
      then gain 200 capability acc
      else if is_summary request.task_type && any (same_type chat) m.capabilities
      then gain 200 chat_capability acc
      else take_off 80 no_capability acc

  abbrev by_size : ℕ → ModelSpec F → Tally → Tally
  by_size tokens m (s, rs) =
      let factor = least (div (of_nat tokens) (of_nat 1000)) (of_nat 4) in
      (
        add s (mul (mul m.parameter_count_b factor) (of_nat 10)),
        rs ++ size_fit m.parameter_count_b tokens ∷ [],
      )

  abbrev by_short : ℕ → ModelSpec F → Tally → Tally
  by_short tokens m (s, rs) =
      if ltb tokens 250 then (sub s m.parameter_count_b, rs ++ short_prompt ∷ []) else (s, rs)

  abbrev by_cpu : Option F → Tally → Tally
  by_cpu none acc = acc
  by_cpu (some c) (s, rs) = (sub s (half c), rs ++ cpu c ∷ [])

  abbrev by_battery : Option Bool → Tally → Tally
  by_battery (some true) acc = take_off 25 on_battery acc
  by_battery _ acc = acc

  abbrev by_speed : Option F → Tally → Tally
  by_speed none acc = acc
  by_speed (some v) (s, rs) =
      if is_zero v then (s, rs) else (add s (half (least v (of_nat 100))), rs ++ decode v ∷ [])

  abbrev by_resources : Option (ResourceSnapshot F) → Tally → Tally
  by_resources none acc = take_off 10 no_telemetry acc
  by_resources (some r) acc =
      by_speed r.measured_decode_tok_s (by_battery r.on_battery (by_cpu r.cpu_percent acc))

  -- The score of a node that is out of the question.
  abbrev pub out_of_reach : F
  out_of_reach = sub (of_nat 0) (of_nat 1000000000)

  unfoldable pub score :
      TaskRequest → NodeInfo F → ModelSpec F → Option Text → Option String → F × List (Reason F)
  unfolding est_prompt_tokens
  score request node m prompt preferred =
      let tokens = est_prompt_tokens request prompt in
      if ltb m.context_window (tokens + request.max_output_tokens)
      then (out_of_reach, too_long ∷ [])
      else by_resources node.resources (
          by_short tokens m (
            by_size tokens m
              (by_capability request m (by_pin preferred node.node_id (of_nat 0, [])))))
