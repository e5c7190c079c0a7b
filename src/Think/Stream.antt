-- ===== src/Think/Stream.antt =====
-- common/think.py: the deltas of `StreamSplitter` on an output that grows.
use Prim.Native.Nat.{min}
use clique.Prelude.{
  ℕ, ◌+◌, ◌-◌, ◌≤◌, ◌<◌, ◌≡◌, refl, sym, ap, ◌∙◌, ◌⊎◌, true, false, ◌||◌, none, some, List, [], ◌∷◌,
  ◌++◌, arith, length, take, drop, leb, Bool-cases, inl, inr,
}
use clique.Types.{Text}
use clique.Texts.{split_at, contains, is_space, is_feed, lstrip, strip}
use clique.Think.{
  open_tag, close_tag, opens, Splitter, Mode, fresh, strip_open, held_back, decide_mode,
  is_ambiguous, feed_reasoning, mode_of, feed_as, feed, split_think, reasoning_of,
}
use clique.Texts.Laws.{
  length-take, take-take, take-all, is_prefix-take, First, split_at-First, split_at-long,
  split_at-early, lead, lstrip-take, First-take, First-length, drop-take-drop,
}

-- The polls of a text at the given lengths, and then the whole text at the end of the generation.
unfoldable pub run : Splitter → Text → List ℕ → Text × Text
unfolding feed
run s t [] = (feed s t true).0
run s t (n ∷ ns) =
    let out = feed s (take n t) false in
    let rest = run out.1 t ns in (out.0.0 ++ rest.0, out.0.1 ++ rest.1)

-- The text only grows.
abbrev pub Grows : ℕ → List ℕ → Type 0
Grows m [] = Unit
Grows m (n ∷ ns) = (m ≤ n) × Grows n ns

-- A beginning of a text that does not open a tag opens none.
opens-take : (n : ℕ) (t : Text) → opens t ≡ false → opens (take n t) ≡ false
opens-take n t h =
    rw (lstrip-take is_space n t)
      (is_prefix-take open_tag (lstrip is_space t) (n - lead is_space t) ∙ rw h refl)

strip_open-take : (n : ℕ) (t : Text) → opens t ≡ false → strip_open (take n t) ≡ take n t
unfolding strip_open
strip_open-take n t h = rw (opens-take n t h) refl

strip_open-plain : (t : Text) → opens t ≡ false → strip_open t ≡ t
unfolding strip_open
strip_open-plain t h = rw h refl

held_back-take : (n : ℕ) (t : Text) → held_back (take n t) ≡ take (min n (length t) - 7) t
held_back-take n t =
    ap (λ k. take (k - 7) (take n t)) (length-take n t) ∙ take-take _ n t (omega arith)

module _ (t h r : Text) (found : split_at close_tag t ≡ some (h, r)) (plain : opens h ≡ false) where
  place : First close_tag t h r
  place = split_at-First _ _ t h r found

  -- The answer, and how much of both parts the poll of a given length shows.
  abbrev answer : Text
  answer = lstrip is_feed r

  abbrev shown : ℕ → ℕ
  shown n = min (n - 7) (length h)

  abbrev answered : ℕ → ℕ
  answered n = min (n - (length h + 8) - lead is_feed r) (length answer) - 7

  feed_reasoning-early :
      (s : Splitter) (n : ℕ)
      → n < length h + 8
      → feed_reasoning s (take n t) false
        ≡ ((drop s.r_sent (take (n - 7) h), []), record s { r_sent = length (take (n - 7) h) })
  unfolding feed_reasoning
  feed_reasoning-early s n b =
      let none_yet = split_at-early n place b in
      let held : held_back (take n t) ≡ take (n - 7) h =
        held_back-take n t
        ∙ (ap (λ k. take k t) (short (First-length place))
            ∙ First-take (n - 7) place (omega arith)) in
      rw (feed_reasoning, none_yet, held, strip_open-take (n - 7) h plain) refl
    where
      short : length h + 8 ≤ length t → min n (length t) - 7 ≡ n - 7
      short k = omega arith

  feed_reasoning-late :
      (s : Splitter) (n : ℕ)
      → length h + 8 ≤ n
      → feed_reasoning s (take n t) false ≡ (
        (drop s.r_sent h, drop s.c_sent (take (answered n) answer)),
        record s { r_sent = length h; c_sent = length (take (answered n) answer) },
      )
  unfolding feed_reasoning
  feed_reasoning-late s n b =
      let there = split_at-long n place b in
      let held : held_back (lstrip is_feed (take (n - (length h + 8)) r))
          ≡ take (answered n) answer =
        ap held_back (lstrip-take is_feed (n - (length h + 8)) r)
        ∙ held_back-take (n - (length h + 8) - lead is_feed r) answer in
      rw (feed_reasoning, there, held, strip_open-plain h plain) refl

  -- What a poll of length n sends, and the state that it leaves.
  record Sends (n : ℕ) (s : Splitter) (out : (Text × Text) × Splitter) : Type 0 where
    r_delta : out.0.0 ≡ drop s.r_sent (take (shown n) h)
    c_delta : out.0.1 ≡ drop s.c_sent (take (answered n) answer)
    r_now : out.1.r_sent ≡ shown n
    c_now : out.1.c_sent ≡ answered n
    assumed : out.1.assume ≡ s.assume
    in_reasoning : out.1.mode ≡ s.mode

  feed_reasoning-Sends :
      (s : Splitter) (n : ℕ) → s.c_sent ≤ answered n → Sends n s (feed_reasoning s (take n t) false)
  feed_reasoning-Sends s n c = elim (Bool-cases (leb (length h + 8) n)) [
    | inl late ↦
        let b : length h + 8 ≤ n = ground arith in
        let all_shown : shown n ≡ length h = omega arith in
        rw (feed_reasoning-late s n b) (record {
          r_delta = ap (drop s.r_sent) (sym (take-all (shown n) h (omega arith)));
          c_delta = refl;
          r_now = sym all_shown;
          c_now = length-take (answered n) answer ∙ omega arith;
          assumed = refl;
          in_reasoning = refl;
        })
    | inr early ↦
        let b : n < length h + 8 = ground arith in
        let part : n - 7 ≡ shown n = omega arith in
        let nothing : answered n ≡ 0 = omega arith in
        let unsent : s.c_sent ≡ 0 = omega arith in
        rw (feed_reasoning-early s n b) (record {
          r_delta = ap (λ k. drop s.r_sent (take k h)) part;
          c_delta = rw (nothing, unsent) refl;
          r_now = length-take (n - 7) h ∙ omega arith;
          c_now = unsent ∙ sym nothing;
          assumed = refl;
          in_reasoning = refl;
        })
  ]

  feed_reasoning-end :
      (s : Splitter) → (feed_reasoning s t true).0 ≡ (drop s.r_sent h, drop s.c_sent answer)
  unfolding feed_reasoning
  feed_reasoning-end s = rw (feed_reasoning, found, strip_open-plain h plain) refl

  -- Ready for a poll of length m or more: reasoning is assumed or found, and no more was sent than
  -- such a poll shows.
  record IsReady (m : ℕ) (s : Splitter) : Type 0 where
    assumed : s.assume ≡ some true
    in_reasoning : (s.mode ≡ none) ⊎ (s.mode ≡ some Mode.reasoning)
    r_shown : s.r_sent ≤ shown m
    c_shown : s.c_sent ≤ answered m

  -- A poll in the middle either waits, or works in the reasoning mode.
  mode_of-poll :
      (s : Splitter) (u : Text)
      → s.assume ≡ some true
      → (s.mode ≡ none) ⊎ (s.mode ≡ some Mode.reasoning)
      → (mode_of s u false ≡ none) ⊎ (mode_of s u false ≡ some Mode.reasoning)
  unfolding decide_mode
  mode_of-poll s u a (inl m) = elim (Bool-cases (is_ambiguous (lstrip is_space u) false)) [
    | inl e ↦ inl (rw (m, e) refl)
    | inr e ↦ elim (Bool-cases (opens u || contains close_tag u)) [
      | inl o ↦ inr (rw (m, e, o) refl)
      | inr o ↦ inr (rw (m, e, o, a) refl)
    ]
  ]
  mode_of-poll s u a (inr m) = inr (rw m refl)

  mode_of-end :
      (s : Splitter)
      → (s.mode ≡ none) ⊎ (s.mode ≡ some Mode.reasoning)
      → mode_of s t true ≡ some Mode.reasoning
  unfolding decide_mode contains
  mode_of-end s (inl m) = elim (Bool-cases (opens t)) [
    | inl o ↦ rw (m, o) refl
    | inr o ↦ rw (m, o, contains, found) refl
  ]
  mode_of-end s (inr m) = rw m refl

  IsReady-wider : (m n : ℕ) (s : Splitter) → m ≤ n → IsReady m s → IsReady n s
  IsReady-wider m n s le k = record {
    assumed = k.assumed;
    in_reasoning = k.in_reasoning;
    r_shown = omega (arith, k.r_shown);
    c_shown = omega (arith, k.c_shown);
  }

  Sends-IsReady :
      (n : ℕ) (s : Splitter) (out : (Text × Text) × Splitter)
      → s.assume ≡ some true
      → s.mode ≡ some Mode.reasoning
      → Sends n s out
      → IsReady n out.1
  Sends-IsReady n s out a m k = record {
    assumed = k.assumed ∙ a;
    in_reasoning = inr (k.in_reasoning ∙ m);
    r_shown = omega (arith, k.r_now);
    c_shown = omega (arith, k.c_now);
  }

  -- What is sent and what follows make up all that was not sent before.
  Sends-join :
      (n : ℕ) (s : Splitter) (out : (Text × Text) × Splitter)
      → s.r_sent ≤ shown n
      → s.c_sent ≤ answered n
      → Sends n s out
      → (out.0.0 ++ drop out.1.r_sent h ≡ drop s.r_sent h)
        × (out.0.1 ++ drop out.1.c_sent answer ≡ drop s.c_sent answer)
  Sends-join n s out r_le c_le k = (
    rw (k.r_delta, k.r_now) (drop-take-drop s.r_sent (shown n) h r_le),
    rw (k.c_delta, k.c_now) (drop-take-drop s.c_sent (answered n) answer c_le),
  )

  run-rest :
      (m : ℕ) (ns : List ℕ) (s : Splitter)
      → Grows m ns
      → IsReady m s
      → run s t ns ≡ (drop s.r_sent h, drop s.c_sent answer)
  unfolding run
  run-rest m [] s g ready =
      ap (λ k. (feed_as k s t true).0) (mode_of-end s ready.in_reasoning)
      ∙ feed_reasoning-end (record s { mode = some Mode.reasoning })
  run-rest m (n ∷ ns) s (le, g) ready =
      elim (mode_of-poll s (take n t) ready.assumed ready.in_reasoning) [
        | inl e ↦
            let still = IsReady-wider m n s le ready in
            let waits : feed s (take n t) false ≡ (([], []), s) =
              ap (λ k. feed_as k s (take n t) false) e in
            rw waits (run-rest n ns s g still)
        | inr e ↦
            let s' = record s { mode = some Mode.reasoning } in
            let out = feed_reasoning s' (take n t) false in
            let works : feed s (take n t) false ≡ out = ap (λ k. feed_as k s (take n t) false) e in
            let wide = IsReady-wider m n s le ready in
            let sends = feed_reasoning-Sends s' n wide.c_shown in
            let rest = run-rest n ns out.1 g (Sends-IsReady n s' out ready.assumed refl sends) in
            let (r_all, c_all) = Sends-join n s' out wide.r_shown wide.c_shown sends in
            rw (works, rest, r_all, c_all) refl
      ]

  -- Where a reasoning model is assumed and the output has a closing tag and no opening tag, the deltas
  -- of all polls of a growing output, its end included, make up exactly the text in front of the tag
  -- as reasoning and, as the answer, the answer of `split_think`; the reasoning of `split_think` is the
  -- same text, stripped.
  pub run-split_think :
      (ns : List ℕ)
      → Grows 0 ns
      → (run (fresh (some true)) t ns ≡ (h, (split_think t).1))
        × ((split_think t).0 ≡ strip is_feed (lstrip is_space h))
  unfolding split_think
  run-split_think ns g =
      let parts : split_think t ≡ (reasoning_of h, answer) = rw (split_think, found) refl in
      (
        run-rest 0 ns (fresh (some true)) g (record {
          assumed = refl;
          in_reasoning = inl refl;
          r_shown = omega arith;
          c_shown = omega arith;
        })
            ∙ ap (λ (p : Text × Text). (h, p.1)) (sym parts),
        ap (λ (p : Text × Text). p.0) parts ∙ rw plain refl,
      )
