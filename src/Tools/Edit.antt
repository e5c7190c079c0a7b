-- ===== src/Tools/Edit.antt =====
-- node/tools.py: what `edit` does to a file, and to the others.
use clique.Prelude.{
  ℕ, zero, suc, ◌-◌, ◌≡◌, refl, sym, ◌∙◌, ◌↔◌, true, false, Option, none, some, [], ◌∷◌, ◌++◌,
  arith, length, drop, ◌==◌, if◌then◌else◌, Bool-cases, Option-cases, inl, inr, ◌⊎◌, ==_iff,
}
use clique.Types.{Text}
use clique.Texts.{is_prefix, split_at, count_in, replace_in, with_feeds}
use clique.Texts.Laws.{same_text_iff}
use clique.Tools.{
  Result, ok, err, ToolFault, Parts, Files, same_parts, text_at, put_text, guard_rel, edit,
  occurrences, replaced, edit_ambiguous, no_such_file, with_text, at_path,
}
use clique.Live.{codes}

pub same_parts_iff : (p q : Parts) → (same_parts p q ≡ true) ↔ (p ≡ q)
unfolding same_parts
same_parts_iff [] [] = ground arith
same_parts_iff [] (b ∷ q) = ground arith
same_parts_iff (a ∷ p) [] = ground arith
same_parts_iff (a ∷ p) (b ∷ q) = ground (arith, same_parts_iff p q, same_text_iff a b)

pub text_at-put_text :
    (p q : Parts) (t : Text) (fs : Files)
    → text_at q (put_text p t fs) ≡ (if same_parts p q then some t else text_at q fs)
unfolding text_at put_text
text_at-put_text p q t [] = refl
text_at-put_text p q t ((r, s) ∷ fs) =
    ground
      (arith, same_parts_iff r p, same_parts_iff r q, same_parts_iff p q, text_at-put_text p q t fs)

pub Result-cases {ℓ} :
    {A : Type ℓ} (r : Result A) → ((e : ToolFault) × (r ≡ err e)) ⊎ ((a : A) × (r ≡ ok a))
Result-cases (err e) = inl (e, refl)
Result-cases (ok a) = inr (a, refl)

module _ (q : ℕ) (p : Text) where
  count_in-skip : (n : ℕ) (t : Text) → count_in (q ∷ p) n t ≡ count_in (q ∷ p) 0 (drop n t)
  unfolding count_in
  count_in-skip zero t = refl
  count_in-skip (suc n) [] = refl
  count_in-skip (suc n) (c ∷ t) = count_in-skip n t

  replace_in-skip :
      (new : Text) (n : ℕ) (t : Text)
      → replace_in (q ∷ p) new n t ≡ replace_in (q ∷ p) new 0 (drop n t)
  unfolding replace_in
  replace_in-skip new zero t = refl
  replace_in-skip new (suc n) [] = refl
  replace_in-skip new (suc n) (c ∷ t) = replace_in-skip new n t

  replace_in-none : (new t : Text) → count_in (q ∷ p) 0 t ≡ 0 → replace_in (q ∷ p) new 0 t ≡ t
  unfolding count_in replace_in
  replace_in-none new [] h = refl
  replace_in-none new (c ∷ t) h = elim (Bool-cases (is_prefix (q ∷ p) (c ∷ t))) [
    | inl e ↦ absurd (ground arith)
    | inr e ↦ rw (e, replace_in-none new t (rw e at h)) refl
  ]

  -- The only place of the pattern, what stands around it, and the text with the new text there.
  record HasOne (new t : Text) : Type 0 where
    before : Text
    after : Text
    place : split_at (q ∷ p) t ≡ some (before, after)
    no_more : count_in (q ∷ p) 0 after ≡ 0
    result : replace_in (q ∷ p) new 0 t ≡ before ++ (new ++ after)

  suc_pred : (n : ℕ) → suc n - 1 ≡ n
  suc_pred n = omega arith

  suc_zero : {n : ℕ} → suc n ≡ 1 → n ≡ 0
  suc_zero h = omega arith

  count_in-HasOne : (new t : Text) → count_in (q ∷ p) 0 t ≡ 1 → HasOne new t
  unfolding count_in replace_in split_at
  count_in-HasOne new [] h = absurd (ground arith)
  count_in-HasOne new (c ∷ t) h = elim (Bool-cases (is_prefix (q ∷ p) (c ∷ t))) [
    | inl e ↦
        let counted : suc (count_in (q ∷ p) (suc (length p) - 1) t) ≡ 1 = rw e at h in
        let rest : count_in (q ∷ p) (length p) t ≡ 0 =
          rw (suc_pred (length p)) at (suc_zero counted) in
        let none_left = sym (count_in-skip (length p) t) ∙ rest in
        let kept =
          replace_in-skip new (length p) t ∙ replace_in-none new (drop (length p) t) none_left in
        record {
          before = [];
          after = drop (length p) t;
          place = rw e refl;
          no_more = none_left;
          result = rw (e, suc_pred (length p), kept) refl;
        }
    | inr e ↦
        let one = count_in-HasOne new t (rw e at h) in
        record {
          before = c ∷ one.before;
          after = one.after;
          place = rw (e, one.place) refl;
          no_more = one.no_more;
          result = rw (e, one.result) refl;
        }
  ]

module _ (resolve : Parts → Option Parts) where
  -- What an edit that succeeds has found and left: in the text that is read, with line feeds for carriage
  -- returns, the place is the only one of the old text; the file holds that text with the new text there,
  -- and the file `other` is as it was.
  pub record IsEdited (path : Text) (q : ℕ) (p new : Text) (fs fs' : Files) (other : Parts)
      : Type 0 where
    pub target : Parts
    pub before : Text
    pub after : Text
    pub stored : Text
    pub text : Text
    pub found : guard_rel resolve path ≡ ok target
    pub had : text_at target fs ≡ some stored
    pub reads : text ≡ with_feeds stored
    pub place : split_at (q ∷ p) text ≡ some (before, after)
    pub no_more : count_in (q ∷ p) 0 after ≡ 0
    pub has : text_at target fs' ≡ some (before ++ (new ++ after))
    pub frame :
        text_at other fs'
        ≡ (if same_parts target other then some (before ++ (new ++ after)) else text_at other fs)

  edit-ambiguous :
      (path old new : Text) (fs : Files) {target : Parts} {t : Text}
      → guard_rel resolve path ≡ ok target
      → text_at target fs ≡ some t
      → (occurrences old (with_feeds t) == 1) ≡ false
      → edit resolve path old new fs ≡ err edit_ambiguous
  unfolding edit
  edit-ambiguous path old new fs g t n = rw (edit, at_path, g, with_text, t, n) refl

  edit-made :
      (path old new : Text) (fs : Files) {target : Parts} {t : Text}
      → guard_rel resolve path ≡ ok target
      → text_at target fs ≡ some t
      → (occurrences old (with_feeds t) == 1) ≡ true
      → edit resolve path old new fs
        ≡ ok (codes "edited " ++ path, put_text target (replaced old new (with_feeds t)) fs)
  unfolding edit
  edit-made path old new fs g t n = rw (edit, at_path, g, with_text, t, n) refl

  edit-missing :
      (path old new : Text) (fs : Files) {target : Parts}
      → guard_rel resolve path ≡ ok target
      → text_at target fs ≡ none
      → edit resolve path old new fs ≡ err no_such_file
  unfolding edit
  edit-missing path old new fs g t = rw (edit, at_path, g, with_text, t) refl

  edit-refused :
      (path old new : Text) (fs : Files) {e : ToolFault}
      → guard_rel resolve path ≡ err e
      → edit resolve path old new fs ≡ err e
  unfolding edit
  edit-refused path old new fs g = rw (edit, at_path, g) refl

  pub guard_rel-cases :
      (path : Text)
      → ((e : ToolFault) × (guard_rel resolve path ≡ err e))
        ⊎ ((t : Parts) × (guard_rel resolve path ≡ ok t))
  guard_rel-cases path = Result-cases (guard_rel resolve path)

  -- An edit that succeeds replaces the one place of its old text, which is not empty, in the text of its
  -- file as it is read, with line feeds for carriage returns; no other file changes.
  pub edit-IsEdited :
      (path : Text) (q : ℕ) (p new : Text) (fs fs' : Files) (reply : Text) (other : Parts)
      → edit resolve path (q ∷ p) new fs ≡ ok (reply, fs')
      → IsEdited path q p new fs fs' other
  edit-IsEdited path q p new fs fs' reply other h = elim (guard_rel-cases path) [
    | inl (e, g) ↦ let no = edit-refused path (q ∷ p) new fs g in absurd (ground arith)
    | inr (target, g) ↦ elim (Option-cases (text_at target fs)) [
      | inl n ↦ let no = edit-missing path (q ∷ p) new fs g n in absurd (ground arith)
      | inr (t, f) ↦ elim (Bool-cases (occurrences (q ∷ p) (with_feeds t) == 1)) [
        | inr n ↦ let no = edit-ambiguous path (q ∷ p) new fs g f n in absurd (ground arith)
        | inl y ↦
            let one = count_in-HasOne q p new (with_feeds t) ((==_iff _ _).0 y) in
            let made = edit-made path (q ∷ p) new fs g f y in
            let same : put_text target (replaced (q ∷ p) new (with_feeds t)) fs ≡ fs' =
              ground arith in
            let law =
              λ (o : Parts). text_at-put_text target o (replaced (q ∷ p) new (with_feeds t)) fs in
            record {
              target = target;
              before = one.before;
              after = one.after;
              stored = t;
              text = with_feeds t;
              reads = refl;
              found = g;
              had = f;
              place = one.place;
              no_more = one.no_more;
              has = rw (← same, law target, self target, one.result) refl;
              frame = rw (← same, law other, one.result) refl;
            }
      ]
    ]
  ]
    where
      self : (o : Parts) → same_parts o o ≡ true
      self o = (same_parts_iff o o).1 refl
