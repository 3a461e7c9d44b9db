-- ===== src/Command/Accepted/Responses.antt =====
-- The error responder for a route that internal/router has validated.
use dev_gate.Common.{
  ◌≡◌, refl, Bool, true, false, not, List, [], ◌∷◌, arith, Text, ℤ, pos, ltz, Result, ok, map,
  reject, ◌>>◌, contains, one_of, ◌||◌,
}
use dev_gate.Router.Std.{Std}
use dev_gate.Router.Route.{ErrorResponse, Route}
use dev_gate.Router.Validation.Headers.{
  HeaderError, invalid_name, invalid_value, reserved_header, duplicate_name, check_response_headers,
  is_reserved_response_header, validate_error_response,
}
use dev_gate.Router.Validation.{check_error_responses}
use dev_gate.Middleware.ErrorResponse
use dev_gate.Command.Assembly.{error_response_from_route}

-- The error responder checks what validation has checked.
four_checks :
    (named valued reserved seen : Bool) (rest : Result HeaderError (Unit {0}))
    → (do
      reject (not named) invalid_name
      reject (not valued) invalid_value
      reject reserved reserved_header
      reject seen duplicate_name
      rest)
      ≡ ok tt
    → (named ≡ true) × (valued ≡ true) × (reserved ≡ false) × (seen ≡ false) × (rest ≡ ok tt)
four_checks named valued reserved seen rest e =
    (ground arith, ground arith, ground arith, ground arith, ground arith)

headers-cons :
    (std : Std) (seen : List Text) (name value : Text) (hs : List (Text × Text))
    → check_response_headers std seen ((name, value) ∷ hs) ≡ ok tt
    → (std.valid_header_field_name name ≡ true)
      × (std.valid_header_field_value value ≡ true)
      × (is_reserved_response_header std name ≡ false)
      × (contains seen (std.to_lower name) ≡ false)
      × (check_response_headers std (std.to_lower name ∷ seen) hs ≡ ok tt)
unfolding check_response_headers
headers-cons std seen name value hs e =
    four_checks (std.valid_header_field_name name) (std.valid_header_field_value value)
      (is_reserved_response_header std name) (contains seen (std.to_lower name))
      (check_response_headers std (std.to_lower name ∷ seen) hs) e

not_allowed_lem :
    (std : Std) (name : Text)
    → is_reserved_response_header std name ≡ false
    → contains ErrorResponse.not_allowed (std.to_lower name) ≡ false
unfolding is_reserved_response_header
not_allowed_lem std name e = e

headers_lem :
    (std : Std) (seen : List Text) (hs : List (Text × Text))
    → check_response_headers std seen hs ≡ ok tt
    → ErrorResponse.check_headers std seen hs ≡ ok tt
unfolding ErrorResponse.check_headers
headers_lem std seen [] e = refl
headers_lem std seen ((name, value) ∷ hs) e =
    let (named, valued, allowed, single, rest) = headers-cons std seen name value hs e in
    rw (named, valued, not_allowed_lem std name allowed, single)
      (headers_lem std (std.to_lower name ∷ seen) hs rest)

status_fine :
    (code : ℤ)
    → not (one_of code (413 ∷ 429 ∷ 502 ∷ 503 ∷ 504 ∷ [])) ≡ false
    → (ltz code (pos 400) || ltz (pos 599) code) ≡ false
status_fine code e = ground (arith, e)

responses-cons :
    (std : Std) (r : Route) (code : ℤ) (x : ErrorResponse) (es : List (ℤ × ErrorResponse))
    → check_error_responses std r ((code, x) ∷ es) ≡ ok tt
    → ((ltz code (pos 400) || ltz (pos 599) code) ≡ false)
      × (check_response_headers std [] x.headers ≡ ok tt)
      × (check_error_responses std r es ≡ ok tt)
unfolding check_error_responses validate_error_response
responses-cons std r code x es e = (status_fine code (ground arith), ground arith, ground arith)

pub responses_lem :
    (std : Std) (r : Route) (es : List (ℤ × ErrorResponse))
    → check_error_responses std r es ≡ ok tt
    → ErrorResponse.check_responses std (map error_response_from_route es) ≡ ok tt
unfolding check_error_responses ErrorResponse.check_responses validate_error_response
responses_lem std r [] e = refl
responses_lem std r ((code, x) ∷ es) e =
    let (known, checked, rest) = responses-cons std r code x es e in
    rw (known, headers_lem std [] x.headers checked) (responses_lem std r es rest)
