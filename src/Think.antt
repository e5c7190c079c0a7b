-- ===== src/Think.antt =====
-- common/think.py: the split of a model's output into reasoning and answer, of a whole output and of
-- one that grows.
pub mod Stream
pub mod Open
pub mod RoundTrip
mod Tests
use clique.Prelude.{
  ℕ, String, ◌+◌, ◌-◌, Bool, true, false, not, ◌&&◌, ◌||◌, Option, none, some, List, [], ◌∷◌, ◌++◌,
  length, take, drop, any, leb, ltb, if◌then◌else◌,
}
use clique.Types.{Text}
use clique.Texts.{
  is_prefix, is_empty, split_at, contains, is_space, is_feed, lstrip, strip, without,
}
use clique.Live.{codes}

abbrev pub open_tag : Text
open_tag = codes "<think>"

abbrev pub close_tag : Text
close_tag = codes "</think>"

-- `_HOLD`
abbrev pub hold : ℕ
hold = 7

abbrev pub sniff_chars : ℕ
sniff_chars = 256

abbrev family_markers : List Text
family_markers =
    codes "nemotron"
    ∷ codes "qwen3"
    ∷ codes "r1"
    ∷ codes "gpt-oss"
    ∷ codes "reason"
    ∷ codes "think"
    ∷ codes "o1"
    ∷ codes "o3"
    ∷ []

-- `lower` is `str.lower`.
unfoldable pub is_reasoning_family : (Text → Text) → Option Text → Bool
unfolding contains
is_reasoning_family lower none = false
is_reasoning_family lower (some family) =
    not (is_empty family) && any (λ m. contains m (lower family)) family_markers

abbrev pub opens : Text → Bool
opens t = is_prefix open_tag (lstrip is_space t)

-- The reasoning in front of the closing tag, or of the end.
abbrev pub reasoning_of : Text → Text
reasoning_of head =
    let stripped = lstrip is_space head in
    strip is_feed
      (if is_prefix open_tag stripped then drop (length open_tag) stripped else stripped)

unfoldable pub split_think : Text → Text × Text
unfolding split_at lstrip strip is_prefix
split_think t = elim (split_at close_tag t) [
  | none ↦
      if opens t then (strip is_feed (drop (length open_tag) (lstrip is_space t)), []) else ([], t)
  | some (head, tail) ↦ (reasoning_of head, lstrip is_feed tail)
]

pub data Mode : Type 0 where
  reasoning content : Mode

pub record Splitter : Type 0 where
  pub assume : Option Bool
  pub mode : Option Mode
  pub r_sent : ℕ
  pub c_sent : ℕ

abbrev pub fresh : Option Bool → Splitter
fresh assume = record { assume = assume; mode = none; r_sent = 0; c_sent = 0 }

unfoldable pub set_family : (Text → Text) → Option Text → Splitter → Splitter
unfolding is_reasoning_family
set_family lower family s = elim s.mode [
  | some m ↦ s
  | none ↦ elim s.assume [
    | some a ↦ s
    | none ↦ elim family [
      | none ↦ s
      | some f ↦
          if is_empty f then s else record s { assume = some (is_reasoning_family lower (some f)) }
    ]
  ]
]

-- `text[:max(0, len(text) - _HOLD)]`
abbrev pub held_back : Text → Text
held_back t = take (length t - hold) t

unfoldable pub strip_open : Text → Text
unfolding lstrip is_prefix
strip_open head =
    let stripped = lstrip is_space head in
    if is_prefix open_tag stripped then lstrip is_feed (drop (length open_tag) stripped) else head

unfoldable pub strip_tags : Text → Bool → Text
unfolding without
strip_tags t done = without close_tag 0 (without open_tag 0 (if done then t else held_back t))

-- `_emit_reasoning` and `_emit_content`: what of the total has not been sent.
abbrev pub emit_reasoning : Text → Splitter → Text × Splitter
emit_reasoning total s = (drop s.r_sent total, record s { r_sent = length total })

abbrev pub emit_content : Text → Splitter → Text × Splitter
emit_content total s = (drop s.c_sent total, record s { c_sent = length total })

abbrev pub emit_both : Text → Text → Splitter → (Text × Text) × Splitter
emit_both r c s =
    let first = emit_reasoning r s in
    let second = emit_content c first.1 in ((first.0, second.0), second.1)

abbrev pub only_reasoning : Text × Splitter → (Text × Text) × Splitter
only_reasoning (d, s) = ((d, []), s)

abbrev pub only_content : Text × Splitter → (Text × Text) × Splitter
only_content (d, s) = (([], d), s)

abbrev pub is_ambiguous : Text → Bool → Bool
is_ambiguous stripped done =
    not done
    && not (is_empty stripped)
    && ltb (length stripped) (length open_tag)
    && is_prefix stripped open_tag

abbrev is_false : Option Bool → Bool
is_false (some false) = true
is_false _ = false

abbrev is_true : Option Bool → Bool
is_true (some true) = true
is_true _ = false

-- The mode that a text decides, where it does.
unfoldable pub decide_mode : Splitter → Text → Bool → Option Mode
unfolding lstrip is_prefix contains
decide_mode s t done =
    if is_ambiguous (lstrip is_space t) done
    then none
    else if opens t || contains close_tag t
    then some reasoning
    else if is_true s.assume
    then some reasoning
    else if done || is_false s.assume || leb sniff_chars (length t)
    then some content
    else none

-- The end of a text in which no closing tag came.
abbrev pub feed_end : Splitter → Text → (Text × Text) × Splitter
feed_end s t =
    if opens t
    then only_reasoning (emit_reasoning (strip_open t) s)
    else if leb s.r_sent 0
    then only_content (emit_content t (record s { mode = some content }))
    else only_reasoning (emit_reasoning (strip_open t) s)

unfoldable pub feed_reasoning : Splitter → Text → Bool → (Text × Text) × Splitter
unfolding split_at strip_open lstrip is_prefix
feed_reasoning s t done = elim (split_at close_tag t) [
  | some (head, tail) ↦
      let body = lstrip is_feed tail in
      emit_both (strip_open head) (if done then body else held_back body) s
  | none ↦
      if done then feed_end s t else only_reasoning (emit_reasoning (strip_open (held_back t)) s)
]

abbrev pub feed_in : Mode → Splitter → Text → Bool → (Text × Text) × Splitter
feed_in content s t done = only_content (emit_content (strip_tags t done) s)
feed_in reasoning s t done = feed_reasoning s t done

abbrev pub mode_of : Splitter → Text → Bool → Option Mode
mode_of s t done = elim s.mode [ some m ↦ some m | none ↦ decide_mode s t done ]

abbrev pub feed_as : Option Mode → Splitter → Text → Bool → (Text × Text) × Splitter
feed_as none s t done = (([], []), s)
feed_as (some m) s t done = feed_in m (record s { mode = some m }) t done

unfoldable pub feed : Splitter → Text → Bool → (Text × Text) × Splitter
unfolding decide_mode feed_reasoning strip_tags
feed s t done = feed_as (mode_of s t done) s t done
