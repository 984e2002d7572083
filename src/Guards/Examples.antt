-- ===== src/Guards/Examples.antt =====
-- Tests of the body limit, and witnesses.
use open_city_planner.Base.{
  Bool, true, List, Text, codes, ◌∷◌, [], some, ◌≡◌, ◌≤◌, false, ◌≢◌, is_digit, text_eq, lower,
  refl, lower_char, none, ◌⊎◌, ◌<◌, ℕ, find, take,
}
use open_city_planner.Guards.Body.{
  strip_bytes, drop_byte_spaces, is_byte_space, App, Received, BodySettings, receives, call,
  declared_ok, got, Message, Scope, sends, is_exempt, exceeds, http_request, has_no_body, failed,
  signed, answer, body_limit, run_app, digits, raises, number_exceeds, ends_with, starts_with,
  request_too_large_error, header, caught, settle, reject, run_limited, request_too_large,
  limited_receive, body_size, give, ended,
}
use open_city_planner.Guards.Timeouts.{
  Fault, is_in, is_statement_timeout_error, search_faults, is_canceled, has_canceled_code,
  is_canceled_code, fault_at, nested, nested_in, append_nested,
}
use open_city_planner.Guards.Found.{is_statement_timeout_error_exact}
use open_city_planner.Guards.Refers.{Leads}
use open_city_planner.Guards.Limited.{call-limited, total_size, content_length}

abbrev small : BodySettings
small = record { avatar_max_file_size = 6; upload_body_overhead_bytes = 2; max_json_body_bytes = 4 }

abbrev post : Text → List (Text × Text) → Scope
post path headers = record {
  type_is_http = true;
  method = some (codes "POST");
  path = path;
  headers = headers;
}

abbrev declares : Text → List (Text × Text)
declares size = (codes "Content-Length", size) ∷ []

-- an application that reads three messages and answers; it raises what a receive raises
abbrev then_next : App → Received → App
then_next app (got m) = app
then_next app (failed e) = raises e

abbrev reader : App
reader = receives (
    then_next
      (receives (then_next (receives (then_next (sends (answer 200 (codes "ok")) App.returns))))))

-- one that goes on after an error
abbrev stubborn : App
stubborn = receives (λ r. receives (λ q. sends (answer 400 (codes "no")) App.returns))

abbrev chunks : List Message
chunks =
    http_request (codes "abc") true
    ∷ http_request (codes "de") true
    ∷ http_request (codes "f") false
    ∷ []

abbrev short : List Message
short = http_request (codes "ab") true ∷ http_request (codes "c") false ∷ []

too_many_bytes : call small reader (post (codes "/login") []) chunks ≡ record {
  sent = request_too_large 4 ∷ [];
  given = http_request (codes "abc") true ∷ [];
  raised = none;
}
unfolding call is_exempt has_no_body body_limit ends_with starts_with declared_ok header text_eq
    caught settle reject run_limited limited_receive body_size give ended
too_many_bytes = refl

avatar :
    (call small reader (post (codes "/api/users/me/avatar") []) chunks).sent
    ≡ answer 200 (codes "ok") ∷ []
unfolding call is_exempt has_no_body body_limit ends_with starts_with declared_ok header text_eq
    caught settle reject run_limited limited_receive body_size give ended
avatar = refl

abbrev declared_ok_of : Text → Bool
unfolding declared_ok exceeds
declared_ok_of s = declared_ok 100 (some s)

lengths :
    (declared_ok_of (codes " 1_00 ") ≡ true)
    × (declared_ok_of (codes "+101") ≡ false)
    × (declared_ok_of (codes "-5") ≡ true)
    × (declared_ok_of (codes "1__0") ≡ false)
    × (declared_ok_of (codes "") ≡ false)
unfolding declared_ok exceeds signed digits number_exceeds is_digit strip_bytes drop_byte_spaces
    is_byte_space
lengths = (refl, refl, refl, refl, refl)

declared_too_large :
    call small reader (post (codes "/login") (declares (codes "5"))) short
    ≡ record { sent = request_too_large 4 ∷ []; given = []; raised = none }
unfolding call is_exempt has_no_body body_limit ends_with starts_with declared_ok exceeds signed
    digits number_exceeds is_digit strip_bytes drop_byte_spaces is_byte_space header lower
    lower_char text_eq reject
declared_too_large = refl

abbrev login : List (Text × Text) → Scope
login headers = post (codes "/login") headers

not_exempt : is_exempt (login []) ≡ false
unfolding is_exempt has_no_body text_eq
not_exempt = refl

call-limited_example :
    let r = call small stubborn (login []) chunks in
    let limit = body_limit small (login []) in
    (total_size r.given ≤ limit)
    × (r.raised ≢ some request_too_large_error)
    × ((r ≡ run_app stubborn chunks)
        ⊎ (declared_ok limit (content_length (login [])) ≡ false)
          × (r ≡ record { sent = request_too_large limit ∷ []; given = []; raised = none })
        ⊎ (limit < total_size chunks)
        ⊎ ((run_app stubborn chunks).raised ≡ some request_too_large_error))
call-limited_example = call-limited small stubborn (login []) chunks not_exempt

-- an error of the database that is wrapped twice, and refers back to its wrapper
abbrev circle : List Fault
circle =
    record { id = 1; sqlstate = none; pgcode = none; orig = some 2; cause = some 2; context = none }
    ∷ record {
      id = 2;
      sqlstate = none;
      pgcode = none;
      orig = none;
      cause = some 3;
      context = some 1;
    }
    ∷ record {
      id = 3;
      sqlstate = some (codes "57014");
      pgcode = none;
      orig = none;
      cause = none;
      context = some 2;
    }
    ∷ []

in_circle :
    (is_statement_timeout_error circle 1 ≡ some true)
    × (is_statement_timeout_error (take 2 circle) 1 ≡ some false)
unfolding is_statement_timeout_error search_faults is_in is_canceled has_canceled_code
    is_canceled_code fault_at nested nested_in append_nested find text_eq
in_circle = (refl, refl)

is_statement_timeout_error_exact_example :
    (is_statement_timeout_error circle 1 ≡ some true)
      × ((e : ℕ) × Leads circle 1 e × (is_canceled circle e ≡ true))
    ⊎ (is_statement_timeout_error circle 1 ≡ some false)
      × ((e : ℕ) → Leads circle 1 e → is_canceled circle e ≡ false)
is_statement_timeout_error_exact_example = is_statement_timeout_error_exact circle 1
