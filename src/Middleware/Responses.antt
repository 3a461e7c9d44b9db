-- ===== src/Middleware/Responses.antt =====
-- internal/directresponse/handler.go and internal/redirect/handler.go. `transform` is the optional
-- change of the response's headers, and `http_redirect` is `http.Redirect`.
use dev_gate.Common.{
  Bool, not, ◌&&◌, ◌||◌, List, [], ◌∷◌, Option, none, some, if◌then◌else◌, is_empty, Text, codes, ℤ,
  pos, ltz, one_of, Result, ok, ◌>>◌, reject,
}
use dev_gate.Router.Route.{DirectResponse, Redirect}
use dev_gate.Middleware.ErrorResponse.{Written}

pub data DirectError : Type 0 where
  status_invalid body_not_allowed : DirectError

-- New of directresponse.
unfoldable pub new_direct : ℤ → Text → Result DirectError DirectResponse
new_direct status body = do
  reject (ltz status (pos 200) || ltz (pos 599) status) status_invalid
  reject (not (is_empty body) && one_of status (204 ∷ 205 ∷ 304 ∷ [])) body_not_allowed
  ok (record { status_code = status; body = body })

abbrev transformed :
    Option (List (Text × Text) → List (Text × Text)) → List (Text × Text) → List (Text × Text)
transformed none headers = headers
transformed (some transform) headers = transform headers

-- The handler that it returns.
unfoldable pub serve_direct :
    DirectResponse → Option (List (Text × Text) → List (Text × Text)) → (is_head : Bool) → Written
serve_direct d transform is_head = record {
  headers = transformed transform (
      if not (is_empty d.body)
      then (codes "Content-Type", codes "text/plain; charset=utf-8") ∷ []
      else []);
  status = d.status_code;
  body = if is_empty d.body || is_head then [] else d.body;
}

pub data RedirectError : Type 0 where
  redirect_status_invalid : RedirectError

-- New of redirect.
unfoldable pub new_redirect : ℤ → Text → Result RedirectError Redirect
new_redirect status location = do
  reject (not (one_of status (301 ∷ 302 ∷ 303 ∷ 307 ∷ 308 ∷ []))) redirect_status_invalid
  ok (record { status_code = status; location = location })

-- The handler that it returns.
unfoldable pub serve_redirect :
    (List (Text × Text) → Text → ℤ → Written)
    → Redirect
    → Option (List (Text × Text) → List (Text × Text))
    → Written
serve_redirect http_redirect r transform =
    http_redirect (transformed transform []) r.location r.status_code
