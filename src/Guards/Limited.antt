-- ===== src/Guards/Limited.antt =====
-- What the limit of backend/app/security/request_limits.py lets through.
use open_city_planner.Base.{
  true, List, ℕ, ◌≤◌, ◌+◌, ◌≡◌, ◌∷◌, [], ◌-◌, ◌⊎◌, arith, if_cases, ltb, inl, refl, length, inr,
  Option, ◌≢◌, some, none, false, codes, Text, ◌<◌, Bool-cases, leb,
}
use open_city_planner.Guards.Body.{
  App, Run, run_limited, limited_receive, Message, ended, body_size, run_app, give, got, raises,
  http_request, sends, failed, receives, request_too_large_error, http_disconnect, settle, Received,
  call, caught, Failure, BodySettings, Scope, other_error, body_limit, is_exempt, declared_ok,
  header, reject, request_too_large,
}

abbrev pub total_size : List Message → ℕ
total_size [] = 0
total_size (m ∷ messages) = body_size m + total_size messages

-- What a receive delivers fits what is left, and nothing is left after it has raised.
limited_receive_cases :
    (limit consumed : ℕ) (m : Message)
    → (limited_receive limit consumed m ≡ got m) × (body_size m ≤ limit - consumed)
      ⊎ (limited_receive limit consumed m ≡ failed request_too_large_error)
        × (limit ≤ consumed + body_size m)
unfolding limited_receive body_size
limited_receive_cases limit consumed (http_request body more_body) =
    if_cases
      (λ r.
        (r ≡ got (http_request body more_body)) × (length body ≤ limit - consumed)
        ⊎ (r ≡ failed request_too_large_error) × (limit ≤ consumed + length body))
      (ltb limit (consumed + length body)) (failed request_too_large_error)
      (got (http_request body more_body)) (λ h. inr (refl, ground arith))
      (λ h. inl (refl, ground arith))
limited_receive_cases limit consumed http_disconnect = inl (refl, omega arith)

limited_receive-fits :
    (limit consumed : ℕ) (m : Message)
    → consumed + body_size m ≤ limit
    → limited_receive limit consumed m ≡ got m
unfolding limited_receive body_size
limited_receive-fits limit consumed (http_request body more_body) h =
    if_cases (λ r. r ≡ got (http_request body more_body)) (ltb limit (consumed + length body))
      (failed request_too_large_error) (got (http_request body more_body))
      (λ over. absurd (ground arith)) (λ fits. refl)
limited_receive-fits limit consumed http_disconnect h = refl

size-give :
    (r : Received) (run : Run) (m : Message)
    → r ≡ got m
    → total_size (give r run).given ≡ body_size m + total_size run.given
unfolding give
size-give r run m h = rw h refl

size-give-failed :
    (r : Received) (run : Run) (e : Failure)
    → r ≡ failed e
    → total_size (give r run).given ≡ total_size run.given
unfolding give
size-give-failed r run e h = rw h refl

size-run_limited-le :
    (limit consumed : ℕ) (app : App) (messages : List Message)
    → total_size (run_limited limit consumed app messages).given ≤ limit - consumed
unfolding run_limited ended give
size-run_limited-le limit consumed App.returns messages = omega arith
size-run_limited-le limit consumed (raises e) messages = omega arith
size-run_limited-le limit consumed (sends s app) messages =
    size-run_limited-le limit consumed app messages
size-run_limited-le limit consumed (receives next) [] =
    omega (arith, size-run_limited-le limit consumed (next (got http_disconnect)) [])
size-run_limited-le limit consumed (receives next) (m ∷ messages) =
    let rest =
      size-run_limited-le limit (consumed + body_size m) (next (limited_receive limit consumed m))
        messages in
    elim (limited_receive_cases limit consumed m) [
      | inl (passed, fits) ↦ omega (
        arith,
        size-give _
            (run_limited limit (consumed + body_size m) (next (limited_receive limit consumed m))
              messages)
            m passed,
        rest,
        fits,
      )
      | inr (stopped, over) ↦ omega (
        arith,
        size-give-failed _
            (run_limited limit (consumed + body_size m) (next (limited_receive limit consumed m))
              messages)
            _ stopped,
        rest,
        over,
      )
    ]

run_limited-run_app :
    (limit consumed : ℕ) (app : App) (messages : List Message)
    → consumed + total_size messages ≤ limit
    → run_limited limit consumed app messages ≡ run_app app messages
unfolding run_limited run_app ended give
run_limited-run_app limit consumed App.returns messages h = refl
run_limited-run_app limit consumed (raises e) messages h = refl
run_limited-run_app limit consumed (sends s app) messages h =
    rw (run_limited-run_app limit consumed app messages h) refl
run_limited-run_app limit consumed (receives next) [] h =
    rw (run_limited-run_app limit consumed (next (got http_disconnect)) [] h) refl
run_limited-run_app limit consumed (receives next) (m ∷ messages) h =
    let rest =
      run_limited-run_app limit (consumed + body_size m) (next (got m)) messages
        (omega (arith, h)) in
    rw (limited_receive-fits limit consumed m (omega (arith, h)), rest) refl

settle-given :
    (limit : ℕ) (run : Run) (failure : Option Failure)
    → (settle limit run failure).given ≡ run.given
unfolding settle
settle-given limit run none = refl
settle-given limit run (some request_too_large_error) = refl
settle-given limit run (some (other_error e)) = refl

settle-raised :
    (limit : ℕ) (run : Run) (failure : Option Failure)
    → run.raised ≡ failure
    → (settle limit run failure).raised ≢ some request_too_large_error
unfolding settle
settle-raised limit run none h = λ e. cc
settle-raised limit run (some request_too_large_error) h = λ e. cc
settle-raised limit run (some (other_error e)) h = λ e. cc

settle-other :
    (limit : ℕ) (run : Run) (failure : Option Failure)
    → failure ≢ some request_too_large_error
    → settle limit run failure ≡ run
unfolding settle
settle-other limit run none h = refl
settle-other limit run (some request_too_large_error) h = absurd (h refl)
settle-other limit run (some (other_error e)) h = refl

-- Whether the application itself raised the error of the middleware.
raised_cases :
    (failure : Option Failure)
    → (failure ≢ some request_too_large_error) ⊎ (failure ≡ some request_too_large_error)
raised_cases none = inl (λ e. cc)
raised_cases (some request_too_large_error) = inr refl
raised_cases (some (other_error n)) = inl (λ e. cc)

abbrev pub content_length : Scope → Option Text
content_length scope = header (codes "content-length") scope.headers

call-declared :
    (settings : BodySettings) (app : App) (scope : Scope) (messages : List Message)
    → is_exempt scope ≡ false
    → declared_ok (body_limit settings scope) (content_length scope) ≡ true
    → let limit = body_limit settings scope in
      call settings app scope messages ≡ caught limit (run_limited limit 0 app messages)
unfolding call
call-declared settings app scope messages limited ok = rw (limited, ok) refl

call-refused :
    (settings : BodySettings) (app : App) (scope : Scope) (messages : List Message)
    → is_exempt scope ≡ false
    → declared_ok (body_limit settings scope) (content_length scope) ≡ false
    → call settings app scope messages ≡ record {
      sent = request_too_large (body_limit settings scope) ∷ [];
      given = [];
      raised = none;
    }
unfolding call reject
call-refused settings app scope messages limited refused = rw (limited, refused) refl

-- A body that fits is delivered whole, and the application's run is its own.
caught-run_app :
    (limit : ℕ) (app : App) (messages : List Message)
    → total_size messages ≤ limit
    → (run_app app messages).raised ≢ some request_too_large_error
    → caught limit (run_limited limit 0 app messages) ≡ run_app app messages
unfolding caught
caught-run_app limit app messages fits own =
    rw (run_limited-run_app limit 0 app messages (omega (arith, fits)))
      (settle-other limit (run_app app messages) (run_app app messages).raised own)

-- Of a request whose body is limited, the application is given at most `body_limit` bytes, however
-- it receives, whatever length the client declares and however it splits the body, and the error
-- of a body that is too large does not leave the middleware. Moreover the request is served as if
-- there were no middleware, with the same messages sent and received and the same error raised,
-- but in three cases: the declared length is no number or above the limit, and then the
-- application is not called and the client is told the limit; the body is larger than the limit;
-- or the application raises the middleware's error by itself.
pub call-limited :
    (settings : BodySettings) (app : App) (scope : Scope) (messages : List Message)
    → is_exempt scope ≡ false
    → let r = call settings app scope messages in
      let limit = body_limit settings scope in
      (total_size r.given ≤ limit)
      × (r.raised ≢ some request_too_large_error)
      × ((r ≡ run_app app messages)
          ⊎ (declared_ok limit (content_length scope) ≡ false)
            × (r ≡ record { sent = request_too_large limit ∷ []; given = []; raised = none })
          ⊎ (limit < total_size messages)
          ⊎ ((run_app app messages).raised ≡ some request_too_large_error))
call-limited settings app scope messages limited =
    let limit = body_limit settings scope in
    let run = run_limited limit 0 app messages in
    elim (Bool-cases (declared_ok limit (content_length scope))) [
      | inl ok ↦ rw (call-declared settings app scope messages limited ok) (
        unfold caught in
            rw (settle-given limit run run.raised)
              (omega (arith, size-run_limited-le limit 0 app messages)),
        unfold caught in settle-raised limit run run.raised refl,
        elim (raised_cases (run_app app messages).raised) [
          | inl own ↦ elim (Bool-cases (leb (total_size messages) limit)) [
            | inl fits ↦ inl (caught-run_app limit app messages (ground arith) own)
            | inr over ↦ inr (inr (inl (ground arith)))
          ]
          | inr raised ↦ inr (inr (inr raised))
        ],
      )
      | inr refused ↦
          rw (call-refused settings app scope messages limited refused)
            (omega arith, λ e. cc, inr (inl (refused, refl)))
    ]
