-- ===== src/Sessions/Appends.antt =====
-- scheduler/sessions.py: a turn that is appended at the latest version.
use Prim.Native.Nat.{max}
use clique.Prelude.{ℕ, suc, String, ◌+◌, ◌-◌, ◌≡◌, refl, some, arith, is_iff, [], ◌∷◌, ◌++◌}
use clique.Context.{Turn, latest_version}
use clique.Context.Append.{append_turn-fresh, row_of, latest_version-snoc}
use clique.Sessions.{
  SessionRow, Manager, ok, find_session, get, append, append_tries, append_latest,
}

-- The manager with a row behind its log, which holds the turn under the next version
abbrev pub logged : String → Turn → ℕ → Manager → Manager
logged sid turn now m = record m {
  contexts =
      m.contexts
      ++ (record {
        session_id = sid;
        version = latest_version sid m.contexts + 1;
        turn = turn;
        created_at = now;
      })
        ∷ [];
}

append-now :
    (sid : String) (turn : Turn) (now : ℕ) (m : Manager) {r : SessionRow}
    → find_session sid m.rows ≡ some r
    → append sid (latest_version sid m.contexts) turn now m ≡ (
      ok (latest_version sid m.contexts + 1),
      record m {
        contexts = m.contexts ++ row_of sid (latest_version sid m.contexts + 1) turn now ∷ [];
      },
    )
unfolding append get
append-now sid turn now m h =
    rw (append, get, h) (rw (append_turn-fresh sid turn now m.contexts) refl)

append_tries-suc :
    (n : ℕ) (sid : String) (turn : Turn) (now : ℕ) (m : Manager) {r : SessionRow}
    → find_session sid m.rows ≡ some r
    → append_tries (λ s. s) (suc n) sid turn now m ≡ (
      ok (latest_version sid m.contexts + 1),
      record m {
        contexts = m.contexts ++ row_of sid (latest_version sid m.contexts + 1) turn now ∷ [];
      },
    )
unfolding append_tries
append_tries-suc n sid turn now m h = rw (append_tries, append-now sid turn now m h) refl

max_pred : (n : ℕ) → max 1 n ≡ suc (n - 1)
max_pred n = omega arith

-- Where no other writer comes in between, a turn for a session that is there is appended at the first
-- attempt, whatever number of attempts is allowed: the log is as before, with a row behind it that holds
-- the turn under the session's next version and the time; nothing else changes, and the session then
-- has that version.
pub append_latest-get :
    (attempts : ℕ) (sid : String) (turn : Turn) (now : ℕ) (m : Manager) {r : SessionRow}
    → find_session sid m.rows ≡ some r
    → ((append_latest (λ s. s) attempts sid turn now m).0 ≡ ok (latest_version sid m.contexts + 1))
      × (((append_latest (λ s. s) attempts sid turn now m).1 ≡ logged sid turn now m)
          × (get sid (append_latest (λ s. s) attempts sid turn now m).1
              ≡ ok (record r.session { context_version = latest_version sid m.contexts + 1 })))
unfolding append_latest get
append_latest-get attempts sid turn now m {r} h =
    let v = latest_version sid m.contexts + 1 in
    let tried = append_tries-suc (attempts - 1) sid turn now m h in
    let latest =
      latest_version-snoc sid m.contexts (row_of sid v turn now) ((is_iff sid sid).1 refl)
        (omega arith) in
    rw (append_latest, max_pred attempts, tried) (refl, (refl, rw (get, h, latest) refl))
