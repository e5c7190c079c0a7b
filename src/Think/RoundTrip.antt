-- ===== src/Think/RoundTrip.antt =====
-- common/think.py: `split_think` on an output that was put together from its two parts.
use clique.Prelude.{◌≡◌, refl, false, some, [], ◌∷◌, ◌++◌, arith, All, ◌==◌}
use clique.Types.{Text}
use clique.Texts.{is_prefix, split_at, is_space, is_feed, lstrip, strip}
use clique.Think.{open_tag, close_tag, split_think}

-- No character of the text begins a tag.
abbrev pub HasNoTag : Text → Type 0
HasNoTag t = All (λ c. (c == b'<') ≡ false) t

split_at-close :
    (t c : Text) → HasNoTag t → split_at close_tag (t ++ (close_tag ++ c)) ≡ some (t, c)
unfolding split_at is_prefix
split_at-close [] c h = refl
split_at-close (x ∷ t) c (h, hs) =
    let other : (b'<' == x) ≡ false = ground arith in rw (other, split_at-close t c hs) refl

split_at-tagged :
    (t c : Text)
    → HasNoTag t
    → split_at close_tag (open_tag ++ (t ++ (close_tag ++ c))) ≡ some (open_tag ++ t, c)
unfolding split_at is_prefix
split_at-tagged t c h = rw (split_at-close t c h) refl

-- Reasoning without a tag or outer line feeds, and an answer that does not begin with a line feed,
-- are found again between and behind their tags.
pub split_think-join :
    (r c : Text)
    → HasNoTag r
    → strip is_feed r ≡ r
    → lstrip is_feed c ≡ c
    → split_think (open_tag ++ (r ++ (close_tag ++ c))) ≡ (r, c)
unfolding split_think is_space lstrip is_prefix
split_think-join r c h er ec = rw (split_think, split_at-tagged r c h) (rw (er, ec) refl)
