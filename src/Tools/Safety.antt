-- ===== src/Tools/Safety.antt =====
-- node/tools.py: `write` adds files only, and `edit` lets binary texts in.
use clique.Prelude.{
  ℕ, ◌≡◌, refl, sym, ◌∙◌, true, false, Option, some, [], ◌∷◌, ◌++◌, arith, Bool-cases, inl, inr,
}
use clique.Types.{Text}
use clique.Texts.{has_null}
use clique.Live.{codes}
use clique.Tools.{
  Result, ok, err, ToolFault, Parts, Files, same_parts, text_at, exists, is_blocked, put_text,
  guard_rel, edit, write, at_path, create_at, os_error, write_refused_overwrite, binary_rejected,
}
use clique.Tools.Edit.{text_at-put_text, same_parts_iff, guard_rel-cases, edit-IsEdited}

-- Where a path has a file, it exists.
text_at-exists : (p : Parts) (fs : Files) {t : Text} → text_at p fs ≡ some t → exists p fs ≡ true
unfolding text_at exists
text_at-exists p [] h = ground arith
text_at-exists p ((q, s) ∷ fs) {t} h = elim (Bool-cases (same_parts q p)) [
  | inl e ↦ rw e (ground arith)
  | inr e ↦ let rest = text_at-exists p fs {t = t} (rw e at h) in rw e (ground arith)
]

has_null-append : (s t u : Text) → has_null t ≡ true → has_null (s ++ (t ++ u)) ≡ true
has_null-append [] [] u h = ground arith
has_null-append [] (c ∷ t) u h = let rest = has_null-append [] t u in ground arith
has_null-append (c ∷ s) t u h = let rest = has_null-append s t u h in ground arith

module _ (resolve : Parts → Option Parts) where
  -- What a write that succeeds leaves behind; `other` had a file before.
  pub record IsWritten (path content : Text) (fs' : Files) (other : Parts) (text : Text)
      : Type 0 where
    pub target : Parts
    pub found : guard_rel resolve path ≡ ok target
    pub has : text_at target fs' ≡ some content
    pub no_null : has_null content ≡ false
    pub kept : text_at other fs' ≡ some text

  write-refused :
      (path content : Text) (fs : Files) {e : ToolFault}
      → guard_rel resolve path ≡ err e
      → write resolve path content fs ≡ err e
  unfolding write
  write-refused path content fs g = rw (write, at_path, g) refl

  write-there :
      (path content : Text) (fs : Files) {target : Parts}
      → guard_rel resolve path ≡ ok target
      → exists target fs ≡ true
      → write resolve path content fs ≡ err write_refused_overwrite
  unfolding write
  write-there path content fs g x = rw (write, at_path, g, x) refl

  write-null :
      (path content : Text) (fs : Files) {target : Parts}
      → guard_rel resolve path ≡ ok target
      → exists target fs ≡ false
      → has_null content ≡ true
      → write resolve path content fs ≡ err binary_rejected
  unfolding write
  write-null path content fs g x n = rw (write, at_path, g, x, n) refl

  write-made :
      (path content : Text) (fs : Files) {target : Parts}
      → guard_rel resolve path ≡ ok target
      → exists target fs ≡ false
      → has_null content ≡ false
      → write resolve path content fs ≡ create_at target content (codes "wrote " ++ path) fs
  unfolding write
  write-made path content fs g x n = rw (write, at_path, g, x, n) refl

  -- A write that succeeds makes a new file with a text without null characters, and every file that
  -- was there keeps its text.
  pub write-IsWritten :
      (path content : Text) (fs fs' : Files) (reply : Text) (other : Parts) (text : Text)
      → text_at other fs ≡ some text
      → write resolve path content fs ≡ ok (reply, fs')
      → IsWritten path content fs' other text
  write-IsWritten path content fs fs' reply other text had h = elim (guard_rel-cases resolve path) [
    | inl (e, g) ↦ let no = write-refused path content fs g in absurd (ground arith)
    | inr (target, g) ↦ elim (Bool-cases (exists target fs)) [
      | inl x ↦ let no = write-there path content fs g x in absurd (ground arith)
      | inr x ↦ elim (Bool-cases (has_null content)) [
        | inl n ↦ let no = write-null path content fs g x n in absurd (ground arith)
        | inr n ↦ elim (Bool-cases (is_blocked target fs)) [
          | inl b ↦
              let no : ◌≡◌ {A = Result (Text × Files)} (err os_error) (ok (reply, fs')) =
                rw b at (sym (write-made path content fs g x n) ∙ h) in
              absurd (ground arith)
          | inr b ↦
              let made : ◌≡◌ {A = Result (Text × Files)}
                  (ok (codes "wrote " ++ path, put_text target content fs)) (ok (reply, fs')) =
                rw b at (sym (write-made path content fs g x n) ∙ h) in
              let same : put_text target content fs ≡ fs' = ground arith in
              record {
                target = target;
                found = g;
                has = rw (← same, text_at-put_text target target content fs, self target) refl;
                no_null = n;
                kept = rw (← same, text_at-put_text target other content fs, apart target x) had;
              }
        ]
      ]
    ]
  ]
    where
      self : (o : Parts) → same_parts o o ≡ true
      self o = (same_parts_iff o o).1 refl

      apart : (target : Parts) → exists target fs ≡ false → same_parts target other ≡ false
      apart target x = elim (Bool-cases (same_parts target other)) [
        | inr e ↦ e
        | inl e ↦
            let same : target ≡ other = (same_parts_iff target other).0 e in
            let there : exists target fs ≡ true = rw same (text_at-exists other fs had) in
            let no : true ≡ false = sym there ∙ x in cc
      ]

  -- An edit that succeeds with a new text that holds a null character leaves such a text in the file,
  -- which `write` and `seed` refuse.
  pub edit-null :
      (path : Text) (q : ℕ) (p new : Text) (fs fs' : Files) (reply : Text)
      → has_null new ≡ true
      → edit resolve path (q ∷ p) new fs ≡ ok (reply, fs')
      → (target : Parts) × ((text : Text) × ((guard_rel resolve path ≡ ok target)
            × ((text_at target fs' ≡ some text) × (has_null text ≡ true))))
  edit-null path q p new fs fs' reply n h =
      let made = edit-IsEdited resolve path q p new fs fs' reply [] h in
      (
        made.target,
        (
          made.before ++ (new ++ made.after),
          (made.found, (made.has, has_null-append made.before new made.after n)),
        ),
      )
