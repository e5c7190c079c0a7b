-- ===== src/Harness/Guards.antt =====
-- scheduler/harness.py: what `validate_diff` guards.
use clique.Prelude.{
  ◌*◌, ◌≤◌, ◌≡◌, refl, ◌⊎◌, true, false, List, [], ◌∷◌, ◌++◌, arith, All, Among, ltb, ◌≢◌, ◌is◌,
  is_iff, any-some, subst, drop, Bool, not, ◌&&◌, if◌then◌else◌, String, Bool-cases, inl, inr,
}
use clique.Types.{Text, CodeTaskSpec}
use clique.Texts.{
  is_prefix, contains, lstrip, encoded_length, has_null, is_among, split_on, rstrip, same_text,
}
use clique.Texts.Laws.{same_text_iff}
use clique.Texts.Found.{is_prefix-rest, is_prefix-not, is_among-none, has_null-none}
use clique.Live.{codes}
use clique.Harness.{
  ok, err, patch_too_large, path_forbidden, test_cmd_forbidden, plain_lines, paths_of,
  touched_paths, starts_file, is_header, is_a_b_slash, is_skipped, is_slash, is_under, is_allowed,
  test_allowlist, check_path, check_paths, is_test_cmd, validate_diff,
}

-- A path that does not begin with a slash and has no segment "..", no null character and, where there
-- is a list of allowed paths, is one of them or stands under one of them.
pub record IsGuarded (spec : CodeTaskSpec) (path : Text) : Type 0 where
  pub relative : (rest : Text) → path ≢ 47 ∷ rest
  pub no_parent : All (λ part. part ≢ codes "..") (split_on 47 path)
  pub no_null : All (λ c. c ≢ 0) path
  pub allowed :
      (spec.allowed_paths ≡ [])
      ⊎ ((a : Text) × (Among spec.allowed_paths a
            × ((path ≡ a) ⊎ ((rest : Text) × (path ≡ (rstrip is_slash a ++ codes "/") ++ rest)))))

-- Either the guards hold of a path, or it is "" or "/dev/null".
abbrev pub Passes : CodeTaskSpec → Text → Type 0
Passes spec path = ((path ≡ []) ⊎ (path ≡ codes "/dev/null")) ⊎ IsGuarded spec path

-- A command whose program is one of the six.
pub record IsTestCmd (cmd : List String) : Type 0 where
  pub program : String
  pub arguments : List String
  pub here : cmd ≡ program ∷ arguments
  pub listed : Among ("pytest" ∷ "cargo" ∷ "go" ∷ "npm" ∷ "pnpm" ∷ "make" ∷ []) program

is_skipped-Passes :
    (path : Text) → is_skipped path ≡ true → (path ≡ []) ⊎ (path ≡ codes "/dev/null")
is_skipped-Passes [] h = inl refl
is_skipped-Passes (c ∷ t) h = inr ((same_text_iff (c ∷ t) (codes "/dev/null")).0 h)

is_under-path :
    (path a : Text)
    → is_under path a ≡ true
    → (path ≡ a) ⊎ ((rest : Text) × (path ≡ (rstrip is_slash a ++ codes "/") ++ rest))
is_under-path path a h = elim (Bool-cases (same_text path a)) [
  | inl e ↦ inl ((same_text_iff path a).0 e)
  | inr e ↦ inr (is_prefix-rest (rstrip is_slash a ++ codes "/") path (rw e at h))
]

is_allowed-entry :
    (allowed : List Text) (path : Text)
    → is_allowed allowed path ≡ true
    → (allowed ≡ [])
      ⊎ ((a : Text) × (Among allowed a
            × ((path ≡ a) ⊎ ((rest : Text) × (path ≡ (rstrip is_slash a ++ codes "/") ++ rest)))))
is_allowed-entry [] path h = inl refl
is_allowed-entry (b ∷ bs) path h =
    let (a, (at, under)) = any-some (is_under path) (b ∷ bs) h in
    inr (a, (at, is_under-path path a under))

is_test_cmd-IsTestCmd : (cmd : List String) → is_test_cmd cmd ≡ true → IsTestCmd cmd
is_test_cmd-IsTestCmd [] h = absurd (ground arith)
is_test_cmd-IsTestCmd (c ∷ cs) h =
    let (a, (at, same)) = any-some (λ a. a is c) test_allowlist h in
    record {
      program = c;
      arguments = cs;
      here = refl;
      listed = subst (Among test_allowlist) ((is_iff a c).0 same) at;
    }

check_path-Passes :
    (spec : CodeTaskSpec) (path : Text) → check_path spec path ≡ true → Passes spec path
unfolding check_path
check_path-Passes spec path h = elim (Bool-cases (is_skipped path)) [
  | inl e ↦ inl (is_skipped-Passes path e)
  | inr e ↦ elim (Bool-cases (is_prefix (codes "/") path)) [
    | inl l ↦ absurd (ground arith)
    | inr l ↦ elim (Bool-cases (is_among (codes "..") (split_on 47 path))) [
      | inl p ↦ absurd (ground arith)
      | inr p ↦ elim (Bool-cases (has_null path)) [
        | inl n ↦ absurd (ground arith)
        | inr n ↦ inr (record {
          relative = is_prefix-not 47 path l;
          no_parent = is_among-none (codes "..") (split_on 47 path) p;
          no_null = has_null-none path n;
          allowed = is_allowed-entry spec.allowed_paths path (ground arith);
        })
      ]
    ]
  ]
]

check_paths-Passes :
    (spec : CodeTaskSpec) (paths : List Text)
    → check_paths spec paths ≡ true
    → All (Passes spec) paths
unfolding check_paths
check_paths-Passes spec [] h = tt
check_paths-Passes spec (p ∷ ps) h =
    (check_path-Passes spec p (ground arith), check_paths-Passes spec ps (ground arith))

-- If the line names a file before or after, under "a/" or "b/", then the path in it passes.
abbrev pub Headed : CodeTaskSpec → Text → Type 0
Headed spec line =
    (path : Text)
    → (line ≡ codes "--- a/" ++ path) ⊎ (line ≡ codes "+++ b/" ++ path)
    → Passes spec path

paths_of-Headed :
    (spec : CodeTaskSpec) (ls : List Text) → All (Passes spec) (paths_of ls) → All (Headed spec) ls
unfolding paths_of is_prefix
paths_of-Headed spec [] h = tt
paths_of-Headed spec (line ∷ ls) h = elim (Bool-cases (starts_file line)) [
  | inl y ↦
      let (first, rest) : Passes spec (drop 6 line) × All (Passes spec) (paths_of ls) =
        rw (paths_of, y) at h in
      (
        λ path names. elim names [
          | inl e ↦ subst (λ l. Passes spec (drop 6 l)) e first
          | inr e ↦ subst (λ l. Passes spec (drop 6 l)) e first
        ],
        paths_of-Headed spec ls rest,
      )
  | inr n ↦ (
    λ path names. elim names [
      | inl e ↦ let no : true ≡ false = rw e at n in cc
      | inr e ↦ let no : true ≡ false = rw e at n in cc
    ],
    paths_of-Headed spec ls (
        other_line (lstrip is_a_b_slash (drop 4 line)) (paths_of ls)
          (is_header line && not (contains (codes "dev/null") line)) (rw (paths_of, n) at h)),
  )
]
  where
    other_line :
        (p : Text) (ps : List Text) (b : Bool)
        → All (Passes spec) (if b then p ∷ ps else ps)
        → All (Passes spec) ps
    other_line p ps true (k, ks) = ks
    other_line p ps false ks = ks

-- A diff that passes is within the size budget; every path that it is seen to touch is "" or
-- "/dev/null", or does not begin with a slash, has no segment ".." and no null character and, where the
-- list of allowed paths is not empty, is one of them or begins with one of them, less its last slashes,
-- and a slash; the paths that its lines name behind "--- a/" and "+++ b/" are so too; and the program of
-- the test command is pytest, cargo, go, npm, pnpm or make.
pub validate_diff-Passes :
    (diff : Text) (spec : CodeTaskSpec)
    → validate_diff diff spec ≡ ok tt
    → (encoded_length diff ≤ spec.patch_budget_kb * 1024)
      × ((All (Passes spec) (touched_paths diff) × All (Headed spec) (plain_lines diff))
          × IsTestCmd spec.test_cmd)
unfolding validate_diff touched_paths
validate_diff-Passes diff spec h =
    elim (Bool-cases (ltb (spec.patch_budget_kb * 1024) (encoded_length diff))) [
      | inl e ↦ let no : err patch_too_large ≡ ok (tt {0}) = rw (validate_diff, e) at h in cc
      | inr small ↦ elim (Bool-cases (check_paths spec (touched_paths diff))) [
        | inr e ↦
            let no : err path_forbidden ≡ ok (tt {0}) = rw (validate_diff, small, e) at h in cc
        | inl paths ↦ elim (Bool-cases (is_test_cmd spec.test_cmd)) [
          | inr e ↦
              let no : err test_cmd_forbidden ≡ ok (tt {0}) =
                rw (validate_diff, small, paths, e) at h in
              cc
          | inl cmd ↦
              let passing = check_paths-Passes spec (touched_paths diff) paths in
              (
                ground arith,
                (
                  (passing, paths_of-Headed spec (plain_lines diff) passing),
                  is_test_cmd-IsTestCmd spec.test_cmd cmd,
                ),
              )
        ]
      ]
    ]
