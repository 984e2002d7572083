-- ===== src/Auth/Sessions/Reach.antt =====
-- The operations on sessions as steps on the tables, in any order.
use Prim.Native.String.{String}
use open_city_planner.Base.{Option, List, ◌≡◌, Time, Uuid, Token, arith, count, ◌==◌}
use open_city_planner.Auth.Store.{User, Revocation, Db, Settings, Request}
use open_city_planner.Auth.Jwt.{Crypto}
use open_city_planner.Auth.Issue.{Fresh, issue_session}
use open_city_planner.Auth.Sessions.{revoke_all_sessions, refresh_session, revoke_current_session}
use open_city_planner.Auth.Sessions.Live.{
  IsSingleLive, refresh_session-NoneAdded, revoke_current_session-NoneAdded,
  revoke_all_sessions-NoneAdded, issue_session-IsSingleLive,
}

-- One call of the service. A log-in draws a family that no row has. `other` is a call of
-- another service, which leaves the table of sessions alone.
pub data Step (c : Crypto) (s : Settings) : Db → Db → Type 0 where
  log_in :
      (db : Db) (now : Time) (u : User) (request : Request) (amr : Option (List String))
      (family_id : Uuid) (fresh : Fresh)
      → count (λ r. r.family_id == family_id) db.sessions ≡ 0
      → Step c s db (issue_session c s db now u request amr family_id fresh).1
  refresh :
      (db : Db) (now : Time) (token : Token) (request : Request) (fresh : Fresh)
      → Step c s db (refresh_session c s db now token request fresh).1
  log_out :
      (db : Db) (now : Time) (token : Option Token)
      → Step c s db (revoke_current_session c db now token)
  revoke_all :
      (db : Db) (user_id : Uuid) (now : Time) (reason : Revocation)
      → Step c s db (revoke_all_sessions db user_id now reason)
  other : (db db' : Db) → db'.sessions ≡ db.sessions → Step c s db db'

pub data Reach (c : Crypto) (s : Settings) (db : Db) : Db → Type 0 where
  here : Reach c s db db
  next : {db' db'' : Db} → Reach c s db db' → Step c s db' db'' → Reach c s db db''

Step-IsSingleLive :
    (c : Crypto) (s : Settings) {db db' : Db} → Step c s db db' → IsSingleLive db → IsSingleLive db'
Step-IsSingleLive c s (log_in db now u request amr family_id fresh h) single f =
    issue_session-IsSingleLive c s db now u request amr family_id fresh h single f
Step-IsSingleLive c s (refresh db now token request fresh) single f =
    omega (arith, single f, refresh_session-NoneAdded c s now request fresh db token f)
Step-IsSingleLive c s (log_out db now token) single f =
    omega (arith, single f, revoke_current_session-NoneAdded c db now token f)
Step-IsSingleLive c s (revoke_all db user_id now reason) single f =
    omega (arith, single f, revoke_all_sessions-NoneAdded db user_id now reason f)
Step-IsSingleLive c s (other db db' e) single f = rw e (single f)

-- Whatever log-ins, refreshes, log-outs and revocations follow one another, with valid, stale or
-- forged tokens, a family never has two sessions that are live at once, if it had none before.
pub Reach-IsSingleLive :
    (c : Crypto) (s : Settings) {db db' : Db}
    → Reach c s db db'
    → IsSingleLive db
    → IsSingleLive db'
Reach-IsSingleLive c s here single = single
Reach-IsSingleLive c s (next r st) single =
    Step-IsSingleLive c s st (Reach-IsSingleLive c s r single)
