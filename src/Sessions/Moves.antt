-- ===== src/Sessions/Moves.antt =====
-- `request_resume`, `touch` and `close_completed` of app/acquisition/sessions.py.
use crawltrove.Base.{ℕ, Bool, true, false, some, ◌&&◌, ◌==◌, ltb, update_where, exists_where}
use crawltrove.Queue.States.{SessionState, waiting, connected, resuming, is_resuming}
use crawltrove.Queue.Rows.{LiveSession, Db}

-- state IN ('waiting','connected')
abbrev pub is_interactive : SessionState → Bool
is_interactive waiting = true
is_interactive connected = true
is_interactive _ = false

abbrev pub is_available : ℕ → ℕ → LiveSession → Bool
is_available now id s = s.id == id && is_interactive s.state && ltb now s.expires_at

abbrev pub enter : SessionState → ℕ → LiveSession → LiveSession
enter state now s = record s { state = state; last_seen_at = some now }

unfoldable pub move_session : SessionState → Db → ℕ → ℕ → Db × Bool
move_session state db now id = (
  record db { sessions = update_where (is_available now id) (enter state now) db.sessions },
  exists_where (is_available now id) db.sessions,
)

-- `request_resume`
unfoldable pub request_resume : Db → ℕ → ℕ → Db × Bool
unfolding move_session
request_resume = move_session resuming

-- `touch`
unfoldable pub touch : Db → ℕ → ℕ → Db × Bool
unfolding move_session
touch = move_session connected

abbrev pub is_resuming_session : ℕ → LiveSession → Bool
is_resuming_session id s = s.id == id && is_resuming s.state

abbrev pub shut : SessionState → ℕ → LiveSession → LiveSession
shut state now s = record s { state = state; closed_at = some now; last_seen_at = some now }

-- `close_completed`
unfoldable pub close_completed : Db → ℕ → ℕ → Db × Bool
close_completed db now id = (
  record db {
    sessions = update_where (is_resuming_session id) (shut SessionState.closed now) db.sessions;
  },
  exists_where (is_resuming_session id) db.sessions,
)
