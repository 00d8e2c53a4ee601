-- ===== src/Session/Request.antt =====
-- `get_db` of backend/app/db/database.py: a request commits when its handler returns and rolls back
-- when it raises.
use kids_chores_api.Session.Monad.{Session, Result, ok, err, Action, commit, rollback}

module _ {A : Type 0} where
  settle : Result A × Session → Result A × Session
  settle (ok a, s) = (ok a, commit s)
  settle (err e, s) = (err e, rollback s)

  unfoldable pub get_db : Action A → Action A
  unfolding settle
  get_db handler s = settle (handler s)
