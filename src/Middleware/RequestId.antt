-- ===== src/Middleware/RequestId.antt =====
-- internal/requestid: id.go over a reader and encoding/hex, and middleware.go over http.Header. The
-- value in the request's context is a field, and logging is left out.
use dev_gate.Common.{ℕ, ◌*◌, ◌≡◌, List, Option, none, some, Text, codes, length, All, ◌<◌}
use dev_gate.Http.{Headers}
use dev_gate.Gateway.Writer.{Call}

-- encoding/hex: what is encoded is as long as two digits for each byte, and is decoded again.
pub record Hex : Type 0 where
  pub encode_to_string : List ℕ → Text
  pub decode_string : Text → Option (List ℕ)
  pub length-encode : (bs : List ℕ) → length (encode_to_string bs) ≡ 2 * length bs
  pub decode-encode :
      (bs : List ℕ) → All (λ b. b < 256) bs → decode_string (encode_to_string bs) ≡ some bs

-- A reader whose state is an `R`, by io.ReadFull: so many bytes, or an error.
pub record Reader (R : Type 0) : Type 0 where
  pub read_full : R → ℕ → R × Option (List ℕ)
  pub read_full_bytes :
      (r : R) (n : ℕ) (bs : List ℕ)
      → (read_full r n).1 ≡ some bs
      → (length bs ≡ n) × All (λ b. b < 256) bs

-- The constant HeaderName.
abbrev pub header_name : Text
header_name = codes "X-Request-ID"

module _ {R : Type 0} (hex : Hex) (reader : Reader R) where
  unfoldable pub generate : R → R × Option Text
  generate r =
      let (r', read) = reader.read_full r 16 in
      elim read [ none ↦ (r', none) | some bs ↦ (r', some (hex.encode_to_string bs)) ]

-- A request with the header of its response.
pub record Serving (H : Type 0) : Type 0 where
  pub context_id : Option Text
  pub request_header : H
  pub response_header : H

-- What the middleware does: it writes an error, or calls the next handler.
pub data Passed (H : Type 0) : Type 0 where
  refused : List Call → Passed H
  forwarded : Serving H → Passed H

module _ {H : Type 0} {lower : Text → Text} (headers : Headers lower H)
    (error_response : ℕ → List Call) where
  -- middleware, with what was generated. Both the responder and `http.Error` write a status.
  unfoldable pub middleware : Option Text → Serving H → Passed H
  middleware none s = refused (error_response 500)
  middleware (some id) s = forwarded (record {
    context_id = some id;
    request_header = headers.set_header s.request_header header_name id;
    response_header = headers.set_header s.response_header header_name id;
  })

-- FromContext
unfoldable pub from_context : {H : Type 0} → Serving H → Option Text
from_context s = s.context_id
