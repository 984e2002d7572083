-- ===== src/Lib.antt =====
-- Open City Planner is a web application on urban vacancy: a FastAPI back end over PostgreSQL, and
-- a browser front end. This library models parts of the back end, the account services, the e-mail
-- outbox, the publishing to Mastodon, the rate limit and the limit on request bodies, as functions
-- on the committed tables, and some pure functions on OSM tags.
--
-- How the code is modelled. A service function that works on a database session is a function that
-- takes the tables (the record `Db`) and the current time, and returns the result or the code of
-- the error that it raises, and the tables as they are committed when it does. A table is the list
-- of its rows; `SELECT`, `UPDATE`, `DELETE` and `count(*)` are `find`, `update`, `filter` and
-- `count` of Base. Calls are atomic, as the row locks of the code (`FOR UPDATE`) make them on the
-- rows that they decide on. An error raised before a commit leaves the tables as they were. Times
-- and durations are natural numbers, in seconds, in Limits in milliseconds; a difference of times
-- stops at 0, where a clock that went back gives a negative one in the code. Identifiers, tokens
-- and digests are numbers; what a call draws at random is an argument.
--
-- The parts:
--   Base                 Boolean tests, tables as lists with their laws, strings as code points.
--   Auth.Store           backend/app/models: the rows; core/config.py: the settings read here.
--   Auth.Jwt             backend/app/auth/jwt.py: create_jwt, decode_jwt.
--   Auth.Issue           backend/app/services/auth_service.py: ensure_user_can_authenticate,
--                        create_session_record, set_auth_cookies, issue_session.
--   Auth.Sessions        the same file: refresh_session and the revocations. Below it: Live and Reach
--                        (families over sequences of calls), Refresh (success), Replay (reuse),
--                        Logout (what a log-out and a log-in mean for refreshes).
--   Auth.Accounts        the same file and backend/app/auth/passwords.py: signup,
--                        complete_oauth_email, verify_email, resend_verification.
--   Auth.Passwords       the same file: authenticate, forgot_password, reset_password,
--                        change_password.
--   Auth.Mfa             backend/app/services/mfa_service.py: Factors (codes), Challenges (the second
--                        step of a log-in), Manage (set-up, removal, step-up), and their theorems.
--   Auth.Oauth           backend/app/services/oauth_account_service.py: authenticate_oauth_identity,
--                        link_oauth_account, unlink_oauth_account; Cases, Sound, Unlinked, Keeps: their tables.
--   Auth.Account         backend/app/services/account_service.py: deactivate_own_account,
--                        delete_own_account; Cases, Reach and Superusers (sequences of these and the calls
--                        of Auth.Oauth), Erased (what a deletion leaves).
--   Outbox.Email         backend/app/services/email_outbox.py: Claim (_claim_event), Finish
--                        (_send_event, _finish_event, _refresh_campaign_counts), Process
--                        (process_due_email_outbox, attempt_welcome_delivery), and their theorems.
--   Outbox.Polygon       backend/app/services/polygon_outbox.py: the queueing and
--                        process_due_polygon_outbox; Settled, Selected and Run: one turn, the choice
--                        of the rows, a run.
--   Limits               backend/app/services/rate_limit.py: _check_memory, check_rate_limit.
--   Guards               backend/app/security/request_limits.py: RequestBodyLimitMiddleware as `call`;
--                        Limited: what it lets through. Timeouts: is_statement_timeout_error of
--                        backend/app/services/public_query_security.py; Refers, Visits, Found: what it finds.
--   Osm                  backend/app/services/osm_occupancy.py, and osm_floor_group, osm_status and
--                        osm_status_sql of osm_canonical.py.
--   Social               backend/app/models/social_publication.py and social_policy.py of the services.
--                        Enqueue, Attempt, Publish, Posts: social_publishing.py (the queueing, one turn
--                        of the job, the job, the texts); Admin: admin_social.py (approve, retry,
--                        cancel). Diagram is the abstract life of a post; Moves, Keyed, Evolves, Steps,
--                        Follow and Govern show that each operation follows it, Reach what follows over
--                        sequences; Outcomes, Totalled, Merged, Waiting: a turn, the counters, the merges, the index; Fits
--                        and Labels: the texts.
-- The log-in of Auth.Passwords leads to a session of Auth.Issue or, with a second factor, to a
-- challenge of Auth.Mfa; a password reset and the removal of the second factor revoke the sessions
-- of Auth.Sessions; a verified address queues a row that Outbox.Email delivers.
--
-- Code that is not modelled stands as a parameter: PyJWT and SHA-256 (`Crypto`), pwdlib
-- (`Passwords`), pyotp, Fernet and the HMAC of recovery codes (`MfaCrypto`), for the outbox the
-- rendering and delivery of email_service.py (`deliver`), for the rate limit what the script in
-- Redis answers (`redis`), for the publishing the rendering, the browser and Mastodon
-- (`Services`), for the polygon outbox the handlers of an event (`handler`), for the body limit
-- the application under the middleware (`App`).
--
-- Bounds. A stage of an operation that the code writes inline is a function of its own. Only
-- `search_faults` runs on fuel, three times the number of exceptions and one: each is visited once
-- and adds at most three. `match_from` counts down the counters of the TOTP window, and
-- `process_events` the turns of the loop over `range(limit)`, as `publish_events` does, so all end
-- by structure.
--
-- Not modelled: two workers of the outbox at once, whose rows `SKIP LOCKED` keeps apart; a worker
-- that dies between the delivery of a mail and the commit, and a delivery that raises although the
-- mail has left; logging and metrics; the details of audit entries; the services on polygons, the
-- import of OSM data, search and notifications; the front end. Of the publishing: two jobs at
-- once, the database's rejection of a row that violates an index, and most of the wording of the
-- posts. Of the guards of a request: the comparison of the CSRF tokens and the check of the
-- origin, the address of the client behind proxies.
mod Base
pub mod Auth
pub mod Outbox
pub mod Limits
pub mod Osm
pub mod Guards
pub mod Social
