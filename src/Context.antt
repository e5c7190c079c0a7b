-- ===== src/Context.antt =====
-- scheduler/context_store.py: the turns of the sessions, and the window of messages compiled for a
-- worker. The sqlite table is a list of rows; a turn is the object that its JSON blob holds.
-- The product `int(n * 0.15)` of floats is `n * 15 / 100`, which it equals for every window below
-- 2 ^ 50 tokens.
pub mod Plan
pub mod Budget
pub mod Append
mod Tests
use Prim.Native.Nat.{max, min}
use clique.Prelude.{
  ℕ, zero, suc, String, ◌+◌, ◌-◌, ◌*◌, ◌/◌, Bool, true, false, not, ◌&&◌, ◌||◌, Option, none, some,
  List, [], ◌∷◌, ◌++◌, length, drop, map, select, any, ltb, leb, ◌==◌, if◌then◌else◌, ◌is◌,
}
use mathlib.Core.List.{reverse}
use clique.Prelude.Sort.{sort_by}
use clique.Types.{Text}

-- A turn: `role` and `content` with their defaults, whether its kind is "compaction", and the list
-- `covers_versions`.
pub record Turn : Type 0 where
  pub role : String
  pub content : Text
  pub is_compaction : Bool
  pub covers : List ℕ

pub record TurnRow : Type 0 where
  pub session_id : String
  pub version : ℕ
  pub turn : Turn
  pub created_at : ℕ

-- A turn with its context version.
abbrev pub Item : Type 0
Item = ℕ × Turn

pub record Message : Type 0 where
  pub role : String
  pub content : Text

abbrev pub safety_tokens : ℕ
safety_tokens = 256

-- `int(n * SUMMARY_FRACTION)`
abbrev pub summary_part : ℕ → ℕ
summary_part n = n * 15 / 100

unfoldable pub est_tokens : Text → ℕ
est_tokens text = max 1 (length text / 4)

unfoldable pub summary_max_output_tokens : ℕ → ℕ → ℕ
summary_max_output_tokens window prompt_tokens =
    min (max 256 (summary_part window)) (max 1 (window - safety_tokens - prompt_tokens))

-- The latest characters.
unfoldable pub tail : Text → ℕ → Text
tail content max_tokens =
    let max_chars = max 1 max_tokens * 4 in
    if leb (length content) max_chars then content else drop (length content - max_chars) content

abbrev is_known : String → Bool
is_known role = role is "system" || role is "user" || role is "assistant"

-- `_as_message(turn, content)`
unfoldable pub as_message : Turn → Text → Message
as_message turn content = record {
  role = if is_known turn.role then turn.role else "user";
  content = content;
}

abbrev pub Store : Type 0
Store = List TurnRow

-- `SELECT COALESCE(MAX(context_version), 0) … WHERE session_id=?`
unfoldable pub latest_version : String → Store → ℕ
latest_version sid [] = 0
latest_version sid (r ∷ rs) =
    let rest = latest_version sid rs in if r.session_id is sid then max r.version rest else rest

-- `none` is the `SessionConflictError` of a stale version.
unfoldable pub append_turn : String → ℕ → Turn → ℕ → Store → Option (ℕ × Store)
unfolding latest_version
append_turn sid expected turn now store =
    let current = latest_version sid store in
    if expected == current
    then some (
      current + 1,
      store
          ++ (record { session_id = sid; version = current + 1; turn = turn; created_at = now })
            ∷ [],
    )
    else none

unfoldable pub iter_turns : String → Store → List Item
unfolding sort_by
iter_turns sid store =
    sort_by (λ i. i.0) (map (λ r. (r.version, r.turn)) (select (λ r. r.session_id is sid) store))

unfoldable pub budget_of : ℕ → ℕ → ℕ
budget_of window max_output = max 1 (window - max_output - safety_tokens)

unfoldable pub summary_budget_of : ℕ → ℕ
summary_budget_of budget = max 1 (summary_part budget)

-- The last compaction in the log, after `found`.
unfoldable pub latest_compaction : Option Turn → List Item → Option Turn
latest_compaction found [] = found
latest_compaction found ((v, t) ∷ rest) =
    latest_compaction (if t.is_compaction then some t else found) rest

abbrev second_or_0 : List ℕ → ℕ
second_or_0 (a ∷ b ∷ l) = b
second_or_0 _ = 0

unfoldable pub covered_through : Option Turn → ℕ
covered_through none = 0
covered_through (some t) = second_or_0 t.covers

unfoldable pub live_turns : ℕ → List Item → List Item
live_turns covered = select (λ i. ltb covered i.0 && not i.1.is_compaction)

-- The floor: the turns that are always kept, the older one first.
unfoldable pub fit_one : Turn → ℕ → List Message
fit_one t budget =
    as_message t (if ltb budget (est_tokens t.content) then tail t.content budget else t.content)
    ∷ []

unfoldable pub fit_two : Turn → Turn → ℕ → List Message
fit_two older newer budget =
    if leb (est_tokens older.content + est_tokens newer.content) budget
    then as_message older older.content ∷ as_message newer newer.content ∷ []
    else if ltb (est_tokens older.content) budget
    then as_message older older.content
      ∷ as_message newer (tail newer.content (max 1 (budget - est_tokens older.content)))
      ∷ []
    else (let older_room = max 1 (budget / 2) in
        let newer_room = max 1 (budget - older_room) in
        as_message older (tail older.content older_room)
        ∷ as_message newer (tail newer.content newer_room)
        ∷ [])

unfoldable pub fit_floor : List Item → ℕ → List Message
unfolding fit_one fit_two
fit_floor [] budget = []
fit_floor ((v, t) ∷ []) budget = fit_one t budget
fit_floor ((v, older) ∷ (w, newer) ∷ rest) budget = fit_two older newer budget

-- The last turn of a role.
unfoldable pub last_of : String → Option Item → List Item → Option Item
last_of role found [] = found
last_of role found (i ∷ rest) = last_of role (if i.1.role is role then some i else found) rest

-- The two items that are there, in log order.
unfoldable pub floor_items : Option Item → Option Item → List Item
floor_items none none = []
floor_items (some u) none = u ∷ []
floor_items none (some a) = a ∷ []
floor_items (some u) (some a) = if leb u.0 a.0 then u ∷ a ∷ [] else a ∷ u ∷ []

unfoldable pub tokens : List Message → ℕ
tokens [] = 0
tokens (m ∷ ms) = est_tokens m.content + tokens ms

abbrev pub has_version : ℕ → List Item → Bool
has_version v = any (λ i. i.0 == v)

-- From the newest of the older turns back, as long as whole turns fit; newest first, with what the
-- loop did not take.
unfoldable pub keep_while : ℕ → List Item → List Item
keep_while leftover [] = []
keep_while leftover (i ∷ rest) =
    let more = keep_while (leftover - est_tokens i.1.content) rest in
    if ltb leftover (est_tokens i.1.content) then [] else i ∷ more

-- The summary message and what it leaves of the budget.
unfoldable pub summary_message : Option Turn → ℕ → List Message × ℕ
summary_message none budget = ([], budget)
summary_message (some t) budget =
    let content =
      if ltb (summary_budget_of budget) (est_tokens t.content)
      then tail t.content (summary_budget_of budget)
      else t.content in
    ((record { role = "system"; content = content }) ∷ [], max 1 (budget - est_tokens content))

abbrev pub whole : Item → Message
whole i = as_message i.1 i.1.content

-- The messages for live turns within a budget, and the turns that do not fit.
unfoldable pub window : List Item → ℕ → List Message × List Item
unfolding fit_floor last_of floor_items tokens keep_while
window live budget =
    let floor = floor_items (last_of "user" none live) (last_of "assistant" none live) in
    let floor_msgs = fit_floor floor budget in
    let older = select (λ i. not (has_version i.0 floor)) live in
    let kept = keep_while (budget - tokens floor_msgs) (reverse older) in
    (
      reverse (map whole kept) ++ floor_msgs,
      select (λ i. not (has_version i.0 floor) && not (has_version i.0 kept)) live,
    )

-- `_compile` of the turns of a session.
unfoldable pub compile_turns : List Item → ℕ → ℕ → List Message × List Item
unfolding window summary_message latest_compaction covered_through live_turns budget_of
compile_turns [] context_window max_output = ([], [])
compile_turns (i ∷ rest) context_window max_output =
    let compaction = latest_compaction none (i ∷ rest) in
    let live = live_turns (covered_through compaction) (i ∷ rest) in
    let (prefix, verbatim) = summary_message compaction (budget_of context_window max_output) in
    let (messages, overflow) = window live verbatim in (prefix ++ messages, overflow)

unfoldable pub compile : String → ℕ → ℕ → Store → List Message
unfolding compile_turns iter_turns
compile sid context_window max_output store =
    (compile_turns (iter_turns sid store) context_window max_output).0

unfoldable pub overflow_turns : String → ℕ → ℕ → Store → List Item
unfolding compile_turns iter_turns
overflow_turns sid context_window max_output store =
    (compile_turns (iter_turns sid store) context_window max_output).1

unfoldable pub needs_compaction : String → ℕ → ℕ → Store → Bool
unfolding overflow_turns
needs_compaction sid context_window max_output store =
    elim (overflow_turns sid context_window max_output store) [ [] ↦ false | x ∷ l ↦ true ]

abbrev first_or : ℕ → List ℕ → ℕ
first_or d [] = d
first_or d (a ∷ l) = a

abbrev last_version : ℕ → List Item → ℕ
last_version v [] = v
last_version v (i ∷ rest) = last_version i.0 rest

-- The range `covers` of `compaction_plan`, where there is something to fold in.
unfoldable pub compaction_covers : String → ℕ → ℕ → Store → Option (ℕ × ℕ)
unfolding overflow_turns latest_compaction iter_turns
compaction_covers sid context_window max_output store =
    let lo : ℕ = elim (latest_compaction none (iter_turns sid store)) [
      | none ↦ 1
      | some t ↦ first_or 1 t.covers
    ] in
    elim (overflow_turns sid context_window max_output store) [
      | [] ↦ none
      | i ∷ rest ↦ some (lo, last_version i.0 rest)
    ]

unfoldable pub delete : String → Store → Store
delete sid = select (λ r. not (r.session_id is sid))

unfoldable pub clear : Store → ℕ × Store
clear store = (length store, [])

-- `gc`: the turns from before the cutoff go.
unfoldable pub gc : ℕ → Store → Store
gc cutoff = select (λ r. not (ltb r.created_at cutoff))
