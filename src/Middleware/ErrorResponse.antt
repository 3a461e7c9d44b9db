-- ===== src/Middleware/ErrorResponse.antt =====
-- internal/errorresponse/responder.go. A map is the list of its entries, of which a later one for the
-- same status does not occur.
use dev_gate.Common.{
  Bool, not, ◌&&◌, ◌||◌, List, [], ◌∷◌, Option, none, some, if◌then◌else◌, is_empty, Text, ℤ, pos,
  ltz, eqz, contains, Result, ok, ◌>>◌, reject, codes,
}
use dev_gate.Router.Std.{Std}

pub record Response : Type 0 where
  pub body : Text
  pub headers : List (Text × Text)

pub data ResponderError : Type 0 where
  status_code name_invalid value_invalid header_not_allowed name_duplicate : ResponderError

-- What is written: the headers that are set, the status and the body.
pub record Written : Type 0 where
  pub headers : List (Text × Text)
  pub status : ℤ
  pub body : Text

abbrev pub not_allowed : List Text
not_allowed =
    codes "connection"
    ∷ codes "content-length"
    ∷ codes "content-encoding"
    ∷ codes "keep-alive"
    ∷ codes "proxy-authenticate"
    ∷ codes "proxy-authorization"
    ∷ codes "proxy-connection"
    ∷ codes "te"
    ∷ codes "trailer"
    ∷ codes "transfer-encoding"
    ∷ codes "upgrade"
    ∷ codes "x-request-id"
    ∷ []

module _ (std : Std) where
  -- The inner loop of New.
  unfoldable pub check_headers : List Text → List (Text × Text) → Result ResponderError (Unit {0})
  check_headers seen [] = ok tt
  check_headers seen ((name, value) ∷ rest) = do
    reject (not (std.valid_header_field_name name)) name_invalid
    reject (not (std.valid_header_field_value value)) value_invalid
    reject (contains not_allowed (std.to_lower name)) header_not_allowed
    reject (contains seen (std.to_lower name)) name_duplicate
    check_headers (std.to_lower name ∷ seen) rest

  unfoldable pub check_responses : List (ℤ × Response) → Result ResponderError (Unit {0})
  unfolding check_headers
  check_responses [] = ok tt
  check_responses ((status, r) ∷ rest) = do
    reject (ltz status (pos 400) || ltz (pos 599) status) status_code
    check_headers [] r.headers
    check_responses rest

  -- New; a responder is its responses.
  unfoldable pub new : List (ℤ × Response) → Result ResponderError (List (ℤ × Response))
  unfolding check_responses
  new responses = do check_responses responses; ok responses

unfoldable pub find : ℤ → List (ℤ × Response) → Option Response
find status [] = none
find status ((code, r) ∷ rest) = if eqz code status then some r else find status rest

-- Write; `http_error` is `http.Error` with the text of the status.
unfoldable pub write : (ℤ → Written) → List (ℤ × Response) → (is_head : Bool) → ℤ → Written
unfolding find
write http_error responses is_head status = elim (find status responses) [
  | none ↦ http_error status
  | some r ↦ record {
    headers = r.headers;
    status = status;
    body = if not (is_empty r.body) && not is_head then r.body else [];
  }
]
