-- ===== src/Sessions/Tests.antt =====
-- The sessions of scheduler/sessions.py on a concrete table.
use clique.Prelude.{◌+◌, ◌≡◌, refl, true, none, some, [], ◌∷◌}
use clique.Context.{latest_version}
use clique.Sessions.{SessionRow, Manager, ok, find_session, get, spoken, append_latest}
use clique.Sessions.Appends.{logged, append_latest-get}

abbrev row : SessionRow
row = record {
  session = record {
    session_id = "s";
    owner_node = "pc";
    cluster_key = [];
    pinned_node = none;
    context_version = 0;
    watchers = [];
  };
  active = true;
}

abbrev manager : Manager
manager = record { rows = row ∷ []; migrating = []; contexts = [] }

finds_s : find_session "s" manager.rows ≡ some row
unfolding find_session
finds_s = refl

append_latest-get_example :
    ((append_latest (λ s. s) 5 "s" (spoken "user" (104 ∷ [])) 9 manager).0
      ≡ ok (latest_version "s" [] + 1))
    × (((append_latest (λ s. s) 5 "s" (spoken "user" (104 ∷ [])) 9 manager).1
          ≡ logged "s" (spoken "user" (104 ∷ [])) 9 manager)
        × (get "s" (append_latest (λ s. s) 5 "s" (spoken "user" (104 ∷ [])) 9 manager).1
            ≡ ok (record row.session { context_version = latest_version "s" [] + 1 })))
append_latest-get_example = append_latest-get 5 "s" (spoken "user" (104 ∷ [])) 9 manager finds_s
