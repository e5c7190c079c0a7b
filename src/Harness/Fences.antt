-- ===== src/Harness/Fences.antt =====
-- scheduler/harness.py: the fences of a model's output.
use clique.Prelude.{
  ℕ, zero, suc, ◌<◌, ◌≡◌, refl, sym, ap, ◌∙◌, true, false, none, some, [], ◌∷◌, ◌++◌, arith, length,
  ◌==◌, Option-cases, inl, inr,
}
use clique.Types.{Text}
use clique.Texts.{is_prefix, is_empty, split_at, after_last, is_space, strip}
use clique.Texts.Laws.{Lacks, split_at-first, split_at-lacking, split_at-length}
use clique.Live.{codes}
use clique.Think.{close_tag}
use clique.Harness.{ok, fence_open, fence_close, strip_reasoning, fences, find_fences, extract_diff}

fences-stop_open : (n : ℕ) (t : Text) → split_at fence_open t ≡ none → fences n t ≡ []
unfolding fences
fences-stop_open zero t e = refl
fences-stop_open (suc n) t e = rw (fences, e) refl

fences-stop_close :
    (n : ℕ) (t before rest : Text)
    → split_at fence_open t ≡ some (before, rest)
    → split_at fence_close rest ≡ none
    → fences n t ≡ []
unfolding fences
fences-stop_close zero t before rest e f = refl
fences-stop_close (suc n) t before rest e f = rw (fences, e, f) refl

fences-step :
    (n : ℕ) (t before rest body after : Text)
    → split_at fence_open t ≡ some (before, rest)
    → split_at fence_close rest ≡ some (body, after)
    → fences (suc n) t ≡ body ∷ fences n after
unfolding fences
fences-step n t before rest body after e f = rw (fences, e, f) refl

fences-fuel : (m k : ℕ) (t : Text) → length t < m → length t < k → fences m t ≡ fences k t
fences-fuel zero k t a b = absurd (omega arith)
fences-fuel (suc m) zero t a b = absurd (omega arith)
fences-fuel (suc m) (suc k) t a b = elim (Option-cases (split_at fence_open t)) [
  | inl e ↦ fences-stop_open (suc m) t e ∙ sym (fences-stop_open (suc k) t e)
  | inr ((before, rest), e) ↦ elim (Option-cases (split_at fence_close rest)) [
    | inl f ↦
        fences-stop_close (suc m) t before rest e f
        ∙ sym (fences-stop_close (suc k) t before rest e f)
    | inr ((body, after), f) ↦
        let outer = split_at-length _ _ t before rest e in
        let inner = split_at-length _ _ rest body after f in
        fences-step m t before rest body after e f
        ∙ (ap (◌∷◌ body)
              (fences-fuel m k after (omega (arith, outer, inner)) (omega (arith, outer, inner)))
            ∙ sym (fences-step k t before rest body after e f))
  ]
]

-- Any fuel above the length of the text finds the same fences.
pub fences-find_fences : (n : ℕ) (t : Text) → length t < n → fences n t ≡ find_fences t
fences-find_fences n t h = fences-fuel n (suc (length t)) t h (omega arith)

after_last-lacking : (q : ℕ) (p t : Text) → Lacks q t → after_last (q ∷ p) t ≡ none
unfolding after_last is_prefix
after_last-lacking q p [] h = refl
after_last-lacking q p (c ∷ t) (h, hs) =
    let other : (q == c) ≡ false = ground arith in rw (after_last-lacking q p t hs, other) refl

after_last-append :
    (p s t : Text) {r : Text} → after_last p t ≡ some r → after_last p (s ++ t) ≡ some r
unfolding after_last
after_last-append p [] t h = h
after_last-append p (c ∷ s) t h = rw (after_last-append p s t h) refl

after_last-close : (t : Text) → Lacks b'<' t → after_last close_tag (close_tag ++ t) ≡ some t
unfolding after_last is_prefix
after_last-close t h = rw (after_last-lacking b'<' (codes "/think>") t h) refl

-- What stands behind the reasoning.
abbrev pub answer_with : Text → Text → Text → Text
answer_with pre body post = pre ++ (fence_open ++ (body ++ (fence_close ++ post)))

find_fences-answer :
    (pre body post : Text)
    → Lacks b'`' pre
    → Lacks b'`' body
    → Lacks b'`' post
    → find_fences (answer_with pre body post) ≡ body ∷ []
find_fences-answer pre body post h k l =
    let first = split_at-first b'`' (codes "``diff\n") pre (body ++ (fence_close ++ post)) h in
    let second = split_at-first b'`' (codes "``") body post k in
    let third = split_at-lacking b'`' (codes "``diff\n") post l in
    fences-step _ _ pre _ body post first second ∙ ap (◌∷◌ body) (fences-stop_open _ post third)

strip_reasoning-last :
    (output : Text) {answer : Text}
    → after_last close_tag output ≡ some answer
    → strip_reasoning output ≡ answer
unfolding strip_reasoning
strip_reasoning-last output e = rw (strip_reasoning, e) refl

is_empty-append : (s : Text) (c : ℕ) (t : Text) → is_empty (s ++ c ∷ t) ≡ false
is_empty-append [] c t = refl
is_empty-append (d ∷ s) c t = refl

-- From an output with a closing tag, behind which there is no "<" and one fence, opened as a diff and
-- closed, with no other backtick round it or in it, and whose body, stripped, begins with "--- ", the diff
-- is that body, stripped, with a line feed, whatever stands in front of the tag, drafts of diffs included.
pub extract_diff-answer :
    (reasoning pre body post : Text)
    → Lacks b'`' pre
    → Lacks b'`' body
    → Lacks b'`' post
    → Lacks b'<' (answer_with pre body post)
    → is_prefix (codes "--- ") (strip is_space body ++ 10 ∷ []) ≡ true
    → extract_diff (reasoning ++ (close_tag ++ answer_with pre body post))
      ≡ ok (strip is_space body ++ 10 ∷ [])
unfolding extract_diff
extract_diff-answer reasoning pre body post h k l no_tag starts =
    let answer = answer_with pre body post in
    let last =
      after_last-append close_tag reasoning (close_tag ++ answer)
        (after_last-close answer no_tag) in
    let stripped = strip_reasoning-last (reasoning ++ (close_tag ++ answer)) last in
    let full = is_empty-append reasoning b'<' (codes "/think>" ++ answer) in
    rw (extract_diff, full, stripped, find_fences-answer pre body post h k l) (rw starts refl)
