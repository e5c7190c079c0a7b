-- ===== src/Tools/Tests.antt =====
-- The sandbox of node/tools.py on concrete files.
use clique.Prelude.{◌≡◌, refl, Option, some, [], ◌∷◌, ◌++◌}
use clique.Types.{Text}
use clique.Texts.{split_on, same_text, is_among, is_prefix, count_in, replace_in}
use clique.Live.{codes}
use clique.Tools.{
  ok, Parts, Files, same_parts, parts_of, text_at, put_text, exists, is_above, is_blocked,
  guard_rel, edit, write,
}
use clique.Tools.Edit.{IsEdited, edit-IsEdited}
use clique.Tools.Safety.{IsWritten, write-IsWritten}

-- No symbolic links.
abbrev plain : Parts → Option Parts
plain p = some p

abbrev main_py : Parts
main_py = codes "src" ∷ codes "main.py" ∷ []

abbrev files : Files
files = (main_py, codes "x = 1\n") ∷ []

abbrev edited : Text → Files
edited new = (main_py, codes "x = " ++ (new ++ codes "\n")) ∷ []

edits :
    (new : Text)
    → edit plain (codes "src/main.py") (codes "1") new files
      ≡ ok (codes "edited src/main.py", edited new)
unfolding edit guard_rel parts_of split_on same_text is_among text_at same_parts put_text count_in
    replace_in is_prefix
edits new = refl

edit-IsEdited_example :
    IsEdited plain (codes "src/main.py") b'1' [] (codes "2") files (edited (codes "2")) []
edit-IsEdited_example =
    edit-IsEdited plain (codes "src/main.py") b'1' [] (codes "2") files (edited (codes "2"))
      (codes "edited src/main.py") [] (edits (codes "2"))

abbrev grown : Files
grown = files ++ (codes "b.py" ∷ [], codes "y") ∷ []

writes : write plain (codes "b.py") (codes "y") files ≡ ok (codes "wrote b.py", grown)
unfolding write guard_rel parts_of split_on same_text is_among exists same_parts put_text is_above
    is_blocked is_prefix
writes = refl

found : text_at main_py files ≡ some (codes "x = 1\n")
unfolding text_at same_parts same_text
found = refl

write-IsWritten_example : IsWritten plain (codes "b.py") (codes "y") grown main_py (codes "x = 1\n")
write-IsWritten_example =
    write-IsWritten plain (codes "b.py") (codes "y") files grown (codes "wrote b.py") main_py
      (codes "x = 1\n") found writes
