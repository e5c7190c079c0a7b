-- ===== src/Executor.antt =====
-- node/executor.py: the execution of a task on a node: the progress that is streamed, the loop over
-- tool calls in the text, and the loop over function calls. The inference of the model, the clock, the
-- relay of a call to the server and the texts of errors are parameters; times are in milliseconds.
pub mod Progress
pub mod Agentic
pub mod Rounds
pub mod Replies
mod Tests
use clique.Prelude.{
  ℕ, zero, suc, String, ◌+◌, ◌-◌, ◌*◌, ◌/◌, Bool, true, false, not, ◌&&◌, ◌||◌, Option, none, some,
  List, [], ◌∷◌, ◌++◌, length, take, drop, map, any, leb, ltb, ◌==◌, if◌then◌else◌, ◌is◌,
}
use clique.Types.{Text}
use clique.Texts.{is_prefix, is_empty, strip, is_feed}
use clique.Live.{codes}
use clique.Tools.{
  Call, Json, Files, Parts, ToolFault, max_steps, is_tool_error, parse_tool_calls, apply_call, seed,
}
use clique.Tools
use clique.Tools.Snapshot.{snapshot}
use clique.Texts
use clique.Harness.{plain_lines}

abbrev pub flush_chars : ℕ
flush_chars = 200

abbrev pub flush_interval : ℕ
flush_interval = 500

abbrev pub ws_chunk : ℕ
ws_chunk = 2000

-- Where progress goes: to a callback, to the web socket, or nowhere.
pub data Channel : Type 0 where
  callback socket nowhere : Channel

-- A piece of progress; a callback is not told the offset.
pub record Slice : Type 0 where
  pub offset : ℕ
  pub text : Text

-- `range(0, len(text), WS_CHUNK)`, with the number of chunks that are left.
unfoldable pub chunks : ℕ → ℕ → Text → List Slice
chunks zero offset t = []
chunks (suc n) offset t =
    (record { offset = offset; text = take ws_chunk t })
    ∷ chunks n (offset + ws_chunk) (drop ws_chunk t)

abbrev pub chunk_count : Text → ℕ
chunk_count t = (length t + (ws_chunk - 1)) / ws_chunk

-- `_send`
unfoldable pub send : Channel → ℕ → Text → List Slice
unfolding chunks
send channel offset [] = []
send callback offset (c ∷ t) = (record { offset = offset; text = c ∷ t }) ∷ []
send socket offset (c ∷ t) = chunks (chunk_count (c ∷ t)) offset (c ∷ t)
send nowhere offset (c ∷ t) = []

abbrev pub is_due : Text → ℕ → ℕ → Bool
is_due buf now last =
    leb flush_chars (length buf) || (not (is_empty buf) && leb flush_interval (now - last))

-- The loop of `_collect_streaming` over the deltas, each with the time at which it comes.
unfoldable pub stream : Channel → Text → ℕ → ℕ → List (Text × ℕ) → List Slice
unfolding send
stream channel buf offset last [] = send channel offset buf
stream channel buf offset last ((delta, now) ∷ rest) =
    let more = buf ++ delta in
    let flushed = send channel offset more ++ stream channel [] (offset + length more) now rest in
    let kept = stream channel more offset last rest in
    if is_due more now last then flushed else kept

abbrev pub join_deltas : List (Text × ℕ) → Text
join_deltas [] = []
join_deltas ((delta, now) ∷ rest) = delta ++ join_deltas rest

-- `_collect_streaming`: the text, and what is sent.
unfoldable pub collect_streaming : Channel → Text → ℕ → List (Text × ℕ) → Text × List Slice
unfolding stream
collect_streaming channel prefix start deltas =
    (join_deltas deltas, stream channel prefix 0 start deltas)

-- The files that a prompt embeds; `cur` is the file that is being read, with its lines so far.
abbrev pub file_mark : Text
file_mark = codes "--- file: "

unfoldable pub ends_with : Text → Text → Bool
unfolding is_prefix
ends_with s t = is_prefix s (drop (length t - length s) t) && leb (length s) (length t)

abbrev is_file_line : Text → Bool
is_file_line line = is_prefix file_mark line && ends_with (codes " ---") line

abbrev name_in : Text → Text
name_in line = take (length line - 4 - 10) (drop 10 line)

-- `"\n".join(buf).strip("\n") + "\n"`
unfoldable pub join_feeds : List Text → Text
join_feeds [] = []
join_feeds (l ∷ []) = l
join_feeds (l ∷ m ∷ ls) = l ++ 10 ∷ join_feeds (m ∷ ls)

abbrev file_text : List Text → Text
file_text buf = strip is_feed (join_feeds buf) ++ 10 ∷ []

-- `files[cur] = …`, where there is a current file.
unfoldable pub put_file : Text → Text → List (Text × Text) → List (Text × Text)
unfolding Texts.same_text
put_file name text [] = (name, text) ∷ []
put_file name text ((n, t) ∷ fs) =
    if Texts.same_text n name then (n, text) ∷ fs else (n, t) ∷ put_file name text fs

abbrev end_file : Option Text → List Text → List (Text × Text) → List (Text × Text)
end_file none buf files = files
end_file (some name) buf files = put_file name (file_text buf) files

unfoldable pub read_files :
    Option Text → List Text → List (Text × Text) → List Text → List (Text × Text)
unfolding put_file join_feeds strip ends_with
read_files cur buf files [] = end_file cur buf files
read_files cur buf files (line ∷ ls) =
    let next_file = read_files (some (name_in line)) [] (end_file cur buf files) ls in
    let more : List (Text × Text) = elim cur [
      | none ↦ read_files none buf files ls
      | some name ↦ read_files (some name) (buf ++ line ∷ []) files ls
    ] in
    if is_file_line line then next_file else more

-- `_snapshot_from_prompt`
unfoldable pub snapshot_from_prompt : Text → List (Text × Text)
unfolding read_files
snapshot_from_prompt prompt = read_files none [] [] (plain_lines prompt)

-- The outcome of a loop: the last output, with the files of the sandbox; or an error that is no
-- `ToolError`, which ends the task.
pub data Outcome : Type 0 where
  finished : Text → Files → Outcome
  raised : ToolFault → Outcome

-- The observations of a round, and the files; or an error that is raised.
pub data Observed : Type 0 where
  observed : List Text → Files → Observed
  thrown : ToolFault → Observed

abbrev pub cons_observed : Text → Observed → Observed
cons_observed t (observed ts fs) = observed (t ∷ ts) fs
cons_observed t (thrown e) = thrown e

abbrev pub is_done : Call → Bool
is_done c = c.op is "done"

abbrev pub no_calls : List Call → Bool
no_calls [] = true
no_calls (c ∷ cs) = false

-- `f"{call.get('op')}: {res[:1500]}"`
abbrev pub observation : Call → Text → Text
observation c res = codes c.op ++ (codes ": " ++ take 1500 res)

module _ (infer : ℕ → Text → Text) (loads : Text → Json) (resolve : Parts → Option Parts)
    (run_test : List String → ℕ → Files → Tools.Result (Text × Files)) (say : ToolFault → Text)
    (drift_note : ℕ → Text) where
  -- The calls of a round, one after the other.
  unfoldable pub apply_calls : List Call → Files → Observed
  apply_calls [] fs = observed [] fs
  apply_calls (c ∷ cs) fs = elim (apply_call resolve run_test c fs) [
    | Tools.ok (res, fs') ↦ cons_observed (observation c res) (apply_calls cs fs')
    | Tools.err e ↦
        let after = cons_observed (observation c (codes "error: " ++ say e)) (apply_calls cs fs) in
        if is_tool_error e then after else thrown e
  ]

  -- What a round leaves: the end of the loop, or the next transcript and files.
  pub data Round : Type 0 where
    stop : Round
    again : Text → Files → Round
    fail : ToolFault → Round

  abbrev pub after_calls : Text → Observed → Round
  after_calls transcript (thrown e) = fail e
  after_calls transcript (observed obs fs) =
      again (transcript ++ (codes "\nObservation:\n" ++ (join_feeds obs ++ codes "\nContinue.\n")))
        fs

  abbrev pub answer_calls : Text → List Call → Files → Round
  answer_calls transcript calls fs =
      if no_calls calls || any is_done calls
      then stop
      else after_calls transcript (apply_calls (take 8 calls) fs)

  unfoldable pub round : Text → Text → Files → Round
  unfolding apply_calls join_feeds
  round transcript out fs = elim (parse_tool_calls loads out) [
    | Tools.err e ↦
        again (transcript ++ (codes "\nObservation: tool parse error: " ++ (say e ++ codes "\n")))
          fs
    | Tools.ok calls ↦ answer_calls transcript calls fs
  ]

  abbrev pub after_round : (Text → Files → Outcome) → Text → Files → Round → Outcome
  after_round next out fs stop = finished out fs
  after_round next out fs (fail e) = raised e
  after_round next out fs (again transcript fs') = next transcript fs'

  -- The rounds that are left, the number of the round, and the output so far. `drift_note` is the note
  -- on what changed in the live workspace, or nothing.
  unfoldable pub rounds : ℕ → ℕ → Text → Text → Files → Outcome
  unfolding round
  rounds zero step transcript final fs = finished final fs
  rounds (suc n) step transcript final fs =
      let noted = transcript ++ drift_note step in
      let out = infer step noted in
      after_round (λ t fs'. rounds n (step + 1) t out fs') out fs (round noted out fs)

  -- The files of the sandbox before the loop; an error of the seed is logged if it is a `ToolError`,
  -- with what was written so far, and ends the task if it is another.
  abbrev pub kept : Tools.Result {0} Unit × Files → Tools.Result Files
  kept (Tools.ok u, fs) = Tools.ok fs
  kept (Tools.err e, fs) = if is_tool_error e then Tools.ok fs else Tools.err e

  abbrev pub seeded : List (Text × Text) → Tools.Result Files
  seeded [] = Tools.ok []
  seeded (f ∷ fs) = kept (seed resolve (f ∷ fs))

  abbrev pub from_seed : Tools.Result Files → (Files → Outcome) → Outcome
  from_seed (Tools.ok fs) loop = loop fs
  from_seed (Tools.err e) loop = raised e

  -- The comment behind the final output; `listed` is `json.dumps(sorted(…))` of names.
  abbrev note_of : (List Parts → Text) → List Parts → Text
  note_of listed [] = []
  note_of listed (n ∷ ns) = codes "\n<!-- sandbox files: " ++ (listed (n ∷ ns) ++ codes " -->\n")

  unfoldable pub sandbox_note : (List Parts → Text) → Files → Text
  unfolding snapshot
  sandbox_note listed fs = note_of listed (map (λ (f : Parts × Text). f.0) (snapshot fs))

  abbrev pub with_note : (List Parts → Text) → Outcome → Outcome
  with_note listed (finished out fs) = finished (out ++ sandbox_note listed fs) fs
  with_note listed (raised e) = raised e

  -- The loop of `execute` for a prompt with "TOOLS:"; `preamble` is TOOL_PREAMBLE.
  unfoldable pub execute_tools : (List Parts → Text) → Text → Text → Outcome
  unfolding rounds sandbox_note
  execute_tools listed preamble prompt =
      let start = prompt ++ (codes "\n" ++ (preamble ++ codes "\n")) in
      with_note listed (
        from_seed (seeded (snapshot_from_prompt prompt))
          (λ fs. rounds (max_steps + 1) 0 start [] fs))
