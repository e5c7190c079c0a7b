-- ===== src/Context/Budget.antt =====
-- scheduler/context_store.py: the compiled messages fit the window.
use Prim.Native.Nat.{max}
use clique.Prelude.{
  ℕ, String, ◌+◌, ◌-◌, ◌*◌, ◌/◌, ◌≤◌, ◌≡◌, refl, ap, ◌∙◌, false, not, Option, none, some, List, [],
  ◌∷◌, ◌++◌, arith, length, length-drop, map, select, ltb, leb, Bool-cases, inl, inr, leb→le,
  ltb→lt,
}
use mathlib.Core.List.{reverse, reverse-append}
use clique.Types.{Text}
use clique.Context.{
  Turn, Item, Message, Store, safety_tokens, est_tokens, tail, as_message, budget_of,
  summary_budget_of, fit_one, fit_two, fit_floor, tokens, keep_while, summary_message, whole,
  window, compile_turns, iter_turns, compile, latest_compaction, covered_through, live_turns,
  floor_items, last_of, has_version,
}

est-tail : (c : Text) (n : ℕ) → est_tokens (tail c n) ≤ max 1 n
unfolding est_tokens tail
est-tail c n = elim (Bool-cases (leb (length c) (max 1 n * 4))) [
  | inl short ↦ rw (tail, short) (omega (arith, leb→le (length c) (max 1 n * 4) short))
  | inr long ↦ rw (tail, long) (omega (arith, length-drop (length c - max 1 n * 4) c))
]

est-pos : (c : Text) → 1 ≤ est_tokens c
unfolding est_tokens
est-pos c = omega arith

tokens-append : (xs ys : List Message) → tokens (xs ++ ys) ≡ tokens xs + tokens ys
unfolding tokens
tokens-append [] ys = omega arith
tokens-append (x ∷ xs) ys = omega (arith, tokens-append xs ys)

tokens-reverse : (xs : List Message) → tokens (reverse xs) ≡ tokens xs
unfolding tokens
tokens-reverse [] = refl
tokens-reverse (x ∷ xs) =
    let step : tokens (reverse (x ∷ xs)) ≡ tokens (reverse xs ++ x ∷ []) =
      ap tokens (reverse-append (x ∷ []) xs) in
    step ∙ (tokens-append (reverse xs) (x ∷ []) ∙ swap (tokens-reverse xs))
  where
    swap : tokens (reverse xs) ≡ tokens xs → tokens (reverse xs) + tokens (x ∷ []) ≡ tokens (x ∷ xs)
    swap same = omega arith

-- The floor fits, if two messages of one token each do.
fit_one-fits : (t : Turn) (b : ℕ) → 1 ≤ b → tokens (fit_one t b) ≤ b
unfolding fit_one tokens as_message
fit_one-fits t b h = elim (Bool-cases (ltb b (est_tokens t.content))) [
  | inl over ↦ rw over (omega (arith, est-tail t.content b))
  | inr fits ↦ rw fits (ground arith)
]

fit_two-fits : (o n : Turn) (b : ℕ) → 2 ≤ b → tokens (fit_two o n b) ≤ b
unfolding fit_two tokens as_message
fit_two-fits o n b h = elim (Bool-cases (leb (est_tokens o.content + est_tokens n.content) b)) [
  | inl both ↦ rw (fit_two, both) (omega (arith, leb→le _ _ both))
  | inr more ↦ elim (Bool-cases (ltb (est_tokens o.content) b)) [
    | inl room ↦
        rw (fit_two, more, room)
          (omega (arith, ltb→lt _ _ room, est-tail n.content (max 1 (b - est_tokens o.content))))
    | inr none_left ↦
        rw (fit_two, more, none_left)
          (omega (
            arith,
            est-tail o.content (max 1 (b / 2)),
            est-tail n.content (max 1 (b - max 1 (b / 2))),
          ))
  ]
]

fit_floor-fits : (items : List Item) (b : ℕ) → 2 ≤ b → tokens (fit_floor items b) ≤ b
unfolding fit_floor tokens
fit_floor-fits [] b h = omega arith
fit_floor-fits ((v, t) ∷ []) b h = fit_one-fits t b (omega arith)
fit_floor-fits ((v, o) ∷ (w, n) ∷ rest) b h = fit_two-fits o n b h

keep_while-fits : (items : List Item) (left : ℕ) → tokens (map whole (keep_while left items)) ≤ left
unfolding keep_while tokens as_message
keep_while-fits [] left = omega arith
keep_while-fits (i ∷ rest) left = elim (Bool-cases (ltb left (est_tokens i.1.content))) [
  | inl full ↦ rw full (omega arith)
  | inr room ↦
      rw room (omega (arith, fits room, keep_while-fits rest (left - est_tokens i.1.content)))
]
  where
    fits : ltb left (est_tokens i.1.content) ≡ false → est_tokens i.1.content ≤ left
    fits h = ground arith

-- The messages of a window fit its budget.
window-fits : (live : List Item) (b : ℕ) → 2 ≤ b → tokens (window live b).0 ≤ b
unfolding window
window-fits live b h =
    let floor = floor_items (last_of "user" none live) (last_of "assistant" none live) in
    let floor_msgs = fit_floor floor b in
    let older = reverse (select (λ i. not (has_version i.0 floor)) live) in
    let kept = map whole (keep_while (b - tokens floor_msgs) older) in
    omega (
      arith,
      tokens-append (reverse kept) floor_msgs,
      tokens-reverse kept,
      keep_while-fits older (b - tokens floor_msgs),
      fit_floor-fits floor b h,
    )

-- The summary and what it leaves stay within the budget.
summary_message-fits :
    (t : Option Turn) (b : ℕ)
    → 3 ≤ b
    → (tokens (summary_message t b).0 + (summary_message t b).1 ≤ b) × (2 ≤ (summary_message t b).1)
unfolding summary_message tokens summary_budget_of
summary_message-fits none b h = omega arith
summary_message-fits (some t) b h =
    elim (Bool-cases (ltb (max 1 (b * 15 / 100)) (est_tokens t.content))) [
      | inl long ↦ rw long (omega (arith, est-tail t.content (max 1 (b * 15 / 100))))
      | inr short ↦ rw short (omega (arith, est-pos t.content, below short))
    ]
  where
    below :
        ltb (max 1 (b * 15 / 100)) (est_tokens t.content) ≡ false
        → est_tokens t.content ≤ max 1 (b * 15 / 100)
    below e = ground arith

compile_turns-fits :
    (turns : List Item) (context_window max_output : ℕ)
    → max_output + safety_tokens + 3 ≤ context_window
    → tokens (compile_turns turns context_window max_output).0 + max_output + safety_tokens
      ≤ context_window
unfolding compile_turns budget_of
compile_turns-fits [] cw mo h = unfold tokens in omega arith
compile_turns-fits (i ∷ rest) cw mo h =
    let compaction = latest_compaction none (i ∷ rest) in
    let live = live_turns (covered_through compaction) (i ∷ rest) in
    let b = max 1 (cw - mo - safety_tokens) in
    let fits = summary_message-fits compaction b (omega arith) in
    omega (
      arith,
      fits.0,
      tokens-append (summary_message compaction b).0
          (window live (summary_message compaction b).1).0,
      window-fits live (summary_message compaction b).1 fits.1,
    )

-- Where a model's window has room for the output, the safety margin and three tokens, the messages
-- that are compiled for it leave room for the output and the margin, whatever the log holds (tokens
-- as the store estimates them, for each content).
pub compile-fits :
    (sid : String) (store : Store) (context_window max_output : ℕ)
    → max_output + safety_tokens + 3 ≤ context_window
    → tokens (compile sid context_window max_output store) + max_output + safety_tokens
      ≤ context_window
unfolding compile
compile-fits sid store cw mo h = compile_turns-fits (iter_turns sid store) cw mo h
