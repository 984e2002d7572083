-- ===== src/Guards/Body.antt =====
-- RequestBodyLimitMiddleware of backend/app/security/request_limits.py. The application that it
-- wraps is a parameter: a tree of what it sends, receives, returns and raises.
use open_city_planner.Base.{
  Bool, true, false, List, Text, ℕ, ◌∷◌, [], Option, none, some, codes, lower, text_eq, is_digit,
  if◌then◌else◌, ltb, length, ◌+◌, ◌*◌, ◌-◌, ◌||◌, ◌&&◌, not, is_some, ◌==◌, ◌++◌, leb,
}
use mathlib.Core.List.{reverse}

pub record BodySettings : Type 0 where
  pub avatar_max_file_size : ℕ
  pub upload_body_overhead_bytes : ℕ
  pub max_json_body_bytes : ℕ

pub record Scope : Type 0 where
  pub type_is_http : Bool
  pub method : Option Text
  pub path : Text
  pub headers : List (Text × Text)

pub data Message : Type 0 where
  http_request : (body : Text) (more_body : Bool) → Message
  http_disconnect : Message

pub data Sent : Type 0 where
  answer : (status : ℕ) (content : Text) → Sent
  request_too_large : (max_bytes : ℕ) → Sent

pub data Failure : Type 0 where
  request_too_large_error : Failure
  other_error : ℕ → Failure

-- what `await receive()` does: it returns a message or raises
pub data Received : Type 0 where
  got : Message → Received
  failed : Failure → Received

pub data App : Type 0 where
  returns : App
  raises : Failure → App
  sends : Sent → App → App
  receives : (Received → App) → App

-- A call of an application: what was sent, the messages it was given, and what it raised.
pub record Run : Type 0 where
  pub sent : List Sent
  pub given : List Message
  pub raised : Option Failure

unfoldable pub ended : Option Failure → Run
ended failure = record { sent = []; given = []; raised = failure }

unfoldable pub give : Received → Run → Run
give (got m) run = record run { given = m ∷ run.given }
give (failed e) run = run

-- `app(scope, receive, send)`; after its last message the client has disconnected
unfoldable pub run_app : App → List Message → Run
unfolding ended give
run_app returns messages = ended none
run_app (raises e) messages = ended (some e)
run_app (sends s app) messages =
    let rest = run_app app messages in record rest { sent = s ∷ rest.sent }
run_app (receives next) [] = give (got http_disconnect) (run_app (next (got http_disconnect)) [])
run_app (receives next) (m ∷ messages) = give (got m) (run_app (next (got m)) messages)

unfoldable pub body_size : Message → ℕ
body_size (http_request body more_body) = length body
body_size http_disconnect = 0

unfoldable pub limited_receive : ℕ → ℕ → Message → Received
unfolding body_size
limited_receive limit consumed (http_request body more_body) =
    if ltb limit (consumed + body_size (http_request body more_body))
    then failed request_too_large_error
    else got (http_request body more_body)
limited_receive limit consumed http_disconnect = got http_disconnect

-- `app(scope, limited_receive, send)` with the bytes consumed so far
unfoldable pub run_limited : ℕ → ℕ → App → List Message → Run
unfolding ended give body_size limited_receive
run_limited limit consumed returns messages = ended none
run_limited limit consumed (raises e) messages = ended (some e)
run_limited limit consumed (sends s app) messages =
    let rest = run_limited limit consumed app messages in record rest { sent = s ∷ rest.sent }
run_limited limit consumed (receives next) [] =
    let received = limited_receive limit consumed http_disconnect in
    give received (run_limited limit consumed (next received) [])
run_limited limit consumed (receives next) (m ∷ messages) =
    let received = limited_receive limit consumed m in
    give received (run_limited limit (consumed + body_size m) (next received) messages)

-- `{key.lower(): value for …}.get(name)`: the last one counts
unfoldable pub header : Text → List (Text × Text) → Option Text
header name [] = none
header name ((key, value) ∷ headers) =
    let rest = header name headers in
    if is_some rest then rest else if text_eq (lower key) name then some value else none

-- white space in bytes
unfoldable pub is_byte_space : ℕ → Bool
is_byte_space c = c == 32 || leb 9 c && leb c 13

unfoldable pub drop_byte_spaces : Text → Text
unfolding is_byte_space
drop_byte_spaces [] = []
drop_byte_spaces (c ∷ s) = let rest = drop_byte_spaces s in if is_byte_space c then rest else c ∷ s

unfoldable pub strip_bytes : Text → Text
unfolding drop_byte_spaces
strip_bytes s = reverse (drop_byte_spaces (reverse (drop_byte_spaces s)))

-- the digits of an `int`, an underscore between two of them allowed, with their number
unfoldable pub digits : ℕ → ℕ → Bool → Text → Option (ℕ × ℕ)
unfolding is_digit
digits n places after_digit [] = if after_digit then some (n, places) else none
digits n places after_digit (c ∷ s) =
    let rest =
      digits (if is_digit c then 10 * n + (c - 48) else n)
        (if is_digit c then places + 1 else places) (is_digit c) s in
    if is_digit c || (c == b'_' && after_digit) then rest else none

-- Python refuses an integer of more digits.
abbrev pub max_places : ℕ
max_places = 4300

-- a sign, and the digits
unfoldable pub signed : Text → Bool × Option (ℕ × ℕ)
unfolding digits
signed [] = (false, none)
signed (c ∷ s) =
    if c == b'-'
    then (true, digits 0 0 false s)
    else if c == b'+'
    then (false, digits 0 0 false s)
    else (false, digits 0 0 false (c ∷ s))

unfoldable pub number_exceeds : Bool → ℕ → Option (ℕ × ℕ) → Option Bool
number_exceeds negative limit none = none
number_exceeds negative limit (some (n, places)) =
    if ltb max_places places then none else some (not negative && ltb limit n)

-- `int(raw_length) > limit`, or nothing for a ValueError
unfoldable pub exceeds : ℕ → Text → Option Bool
unfolding signed number_exceeds strip_bytes
exceeds limit raw = let n = signed (strip_bytes raw) in number_exceeds n.0 limit n.1

unfoldable pub declared_ok : ℕ → Option Text → Bool
unfolding exceeds
declared_ok limit none = true
declared_ok limit (some raw) = elim (exceeds limit raw) [
  | none ↦ false
  | some too_large ↦ not too_large
]

unfoldable pub starts_with : Text → Text → Bool
starts_with [] s = true
starts_with (c ∷ prefix) [] = false
starts_with (c ∷ prefix) (d ∷ s) = c == d && starts_with prefix s

unfoldable pub ends_with : Text → Text → Bool
unfolding starts_with
ends_with suffix s = starts_with (reverse suffix) (reverse s)

unfoldable pub body_limit : BodySettings → Scope → ℕ
unfolding ends_with
body_limit settings scope =
    if ends_with (codes "/users/me/avatar") scope.path
    then settings.avatar_max_file_size + settings.upload_body_overhead_bytes
    else settings.max_json_body_bytes

unfoldable pub has_no_body : Option Text → Bool
has_no_body none = false
has_no_body (some method) =
    text_eq method (codes "GET")
    || text_eq method (codes "HEAD")
    || text_eq method (codes "OPTIONS")

-- `scope["type"] != "http" or scope.get("method") in {…}`
unfoldable pub is_exempt : Scope → Bool
unfolding has_no_body
is_exempt scope = not scope.type_is_http || has_no_body scope.method

unfoldable pub reject : ℕ → List Sent
reject limit = request_too_large limit ∷ []

-- `except RequestTooLargeError`, for what the application has raised
unfoldable pub settle : ℕ → Run → Option Failure → Run
unfolding reject
settle limit run none = run
settle limit run (some request_too_large_error) = record run {
  sent = run.sent ++ reject limit;
  raised = none;
}
settle limit run (some (other_error e)) = run

unfoldable pub caught : ℕ → Run → Run
unfolding settle
caught limit run = settle limit run run.raised

unfoldable pub call : BodySettings → App → Scope → List Message → Run
unfolding is_exempt run_app body_limit declared_ok header reject caught run_limited
call settings app scope messages =
    let limit = body_limit settings scope in
    if is_exempt scope
    then run_app app messages
    else if declared_ok limit (header (codes "content-length") scope.headers)
    then caught limit (run_limited limit 0 app messages)
    else record { sent = reject limit; given = []; raised = none }
