-- ===== src/Tools/Snapshot.antt =====
-- node/tools.py: `snapshot` of the class Sandbox, and the tests on names of files that
-- scheduler/server.py has too.
use clique.Prelude.{
  String, ◌-◌, Bool, not, ◌&&◌, ◌||◌, false, List, [], ◌∷◌, any, select, map, length, drop, ltb,
}
use clique.Types.{Text}
use clique.Texts.{same_text, feeds_from, with_feeds}
use clique.Live.{codes}
use clique.Tools.{Parts, Files}

abbrev pub is_one_of : Text → List String → Bool
is_one_of t names = any (λ n. same_text t (codes n)) names

abbrev pub last_part : Text → Parts → Text
last_part t [] = t
last_part t (p ∷ ps) = last_part p ps

-- The suffix of a name that has something in front of it
abbrev pub is_compiled : Text → Bool
is_compiled name =
    ltb 4 (length name) && is_one_of (drop (length name - 4) name) (".pyc" ∷ ".pyo" ∷ [])

-- A file of the sandbox that is no cache of Python
unfoldable pub is_snapped : Parts → Bool
unfolding same_text
is_snapped [] = false
is_snapped (p ∷ ps) =
    not (is_one_of p ("__pycache__" ∷ ".pytest_cache" ∷ []) || is_compiled (last_part p ps))

-- The order of the files is left open.
unfoldable pub snapshot : Files → Files
unfolding is_snapped feeds_from
snapshot fs =
    map (λ (f : Parts × Text). (f.0, with_feeds f.1))
      (select (λ (f : Parts × Text). is_snapped f.0) fs)
