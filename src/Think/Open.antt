-- ===== src/Think/Open.antt =====
-- common/think.py: a poll in which the opening tag has just come in.
use clique.Prelude.{
  ℕ, zero, suc, ◌-◌, ◌<◌, ◌≡◌, refl, ap, ◌∙◌, Bool, true, false, Option, none, some, [], ◌++◌,
  arith, length, take, ltb, Option-cases, inl, inr, length-append,
}
use clique.Types.{Text}
use clique.Texts.{is_prefix, split_at, contains, is_space, lstrip}
use clique.Texts.Laws.{take-append_left}
use clique.Think.{
  open_tag, close_tag, Mode, fresh, strip_open, held_back, decide_mode, feed_as, feed_reasoning,
  feed,
}

part-plain : (k : ℕ) → k < 7 → strip_open (take k open_tag) ≡ take k open_tag
unfolding strip_open lstrip is_prefix is_space
part-plain zero h = refl
part-plain (suc zero) h = refl
part-plain (suc (suc zero)) h = refl
part-plain (suc (suc (suc zero))) h = refl
part-plain (suc (suc (suc (suc zero)))) h = refl
part-plain (suc (suc (suc (suc (suc zero))))) h = refl
part-plain (suc (suc (suc (suc (suc (suc zero)))))) h = refl
part-plain (suc (suc (suc (suc (suc (suc (suc k))))))) h = absurd (omega arith)

contains-none : (p t : Text) → contains p t ≡ false → split_at p t ≡ none
unfolding contains
contains-none p t h = elim (Option-cases (split_at p t)) [
  | inl e ↦ e
  | inr (s, e) ↦ let yes_ : contains p t ≡ true = rw (contains, e) refl in absurd (ground arith)
]

held-part :
    (body : Text) → length body < 7 → held_back (open_tag ++ body) ≡ take (length body) open_tag
held-part body b =
    let size : length (open_tag ++ body) - 7 ≡ length body =
      omega (arith, length-append open_tag body) in
    ap (λ k. take k (open_tag ++ body)) size
    ∙ take-append_left (length body) open_tag body (omega arith)

mode-open :
    (assume : Option Bool) (body : Text)
    → decide_mode (fresh assume) (open_tag ++ body) false ≡ some Mode.reasoning
unfolding decide_mode lstrip is_space is_prefix
mode-open assume body =
    let long : ltb (length (open_tag ++ body)) (length open_tag) ≡ false = ground arith in
    rw long refl

-- A first poll that holds the opening tag and fewer than seven characters more shows the first
-- characters of the tag itself as reasoning.
pub feed-open_tag :
    (assume : Option Bool) (body : Text)
    → length body < 7
    → contains close_tag (open_tag ++ body) ≡ false
    → (feed (fresh assume) (open_tag ++ body) false).0 ≡ (take (length body) open_tag, [])
unfolding feed feed_reasoning
feed-open_tag assume body b no_close =
    let alone = contains-none close_tag (open_tag ++ body) no_close in
    let held = held-part body b in
    let part = part-plain (length body) b in
    ap (λ m. (feed_as m (fresh assume) (open_tag ++ body) false).0) (mode-open assume body)
    ∙ rw (feed_reasoning, alone, held, part) refl
