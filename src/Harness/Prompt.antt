-- ===== src/Harness/Prompt.antt =====
-- scheduler/harness.py: the size of the prompt of a code task.
use Prim.Native.Nat.{max}
use clique.Prelude.{
  ℕ, String, ◌+◌, ◌-◌, ◌≤◌, ◌<◌, List, [], ◌∷◌, arith, length, length-append, take, ltb, Bool-cases,
  inl, inr,
}
use clique.Types.{Text, CodeTaskSpec}
use clique.Texts.Laws.{length-take}
use clique.Harness.{prompt_header, file_chunk, truncated_mark, pack_files, build_code_prompt}

pack_files-fits :
    (budget used : ℕ) (files : List (String × Text))
    → used + length (pack_files budget used files) ≤ max used (budget + 13)
unfolding pack_files
pack_files-fits budget used [] = omega arith
pack_files-fits budget used ((path, content) ∷ files) =
    let chunk = file_chunk path content in
    elim (Bool-cases (ltb budget (used + length chunk))) [
      | inl over ↦ elim (Bool-cases (ltb 200 (budget - used))) [
        | inl room ↦
            let cut = length-append (take (budget - used) chunk) truncated_mark in
            let part = length-take (budget - used) chunk in
            let left : 200 < budget - used = ground arith in
            rw (pack_files, over, room) (omega (arith, cut, part, left))
        | inr none_left ↦ rw (pack_files, over, none_left) (omega arith)
      ]
      | inr fits ↦
          let whole : used + length chunk ≤ budget = ground arith in
          let more = pack_files-fits budget (used + length chunk) files in
          let both = length-append chunk (pack_files budget (used + length chunk) files) in
          rw (pack_files, fits) (omega (arith, whole, more, both))
    ]

-- The prompt is no longer than the budget and the mark of a cut, unless the header alone is.
pub build_code_prompt-fits :
    (task_prompt : Text) (spec : CodeTaskSpec) (budget : ℕ)
    → length (build_code_prompt task_prompt spec budget)
      ≤ max (length (prompt_header task_prompt spec)) (budget + 13)
unfolding build_code_prompt
build_code_prompt-fits task_prompt spec budget =
    let header = prompt_header task_prompt spec in
    let files = pack_files budget (length header) spec.files in
    omega (arith, length-append header files, pack_files-fits budget (length header) spec.files)
