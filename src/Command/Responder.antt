-- ===== src/Command/Responder.antt =====
-- cmd/devgate/error_responses.go.
use dev_gate.Common.{not, List, [], ◌∷◌, ℤ, one_of, Result, ok, ◌>>=◌, ◌>>◌, reject, fail_as}
use dev_gate.Router.Std.{Std}
use dev_gate.Config.Route.{ErrorResponseConfig}
use dev_gate.Middleware.ErrorResponse.{Response}
use dev_gate.Middleware.ErrorResponse

pub data GlobalError : Type 0 where
  status_not_global responder_failed : GlobalError

-- The loop of globalErrorResponderFromConfig.
unfoldable pub global_responses :
    List (ℤ × ErrorResponseConfig) → Result GlobalError (List (ℤ × Response))
global_responses [] = ok []
global_responses ((status, c) ∷ rest) = do
  reject (not (one_of status (404 ∷ 405 ∷ 500 ∷ []))) status_not_global
  responses ← global_responses rest
  ok ((status, record { body = c.body; headers = c.headers }) ∷ responses)

unfoldable pub global_error_responder_from_config :
    Std → List (ℤ × ErrorResponseConfig) → Result GlobalError (List (ℤ × Response))
unfolding global_responses
global_error_responder_from_config std configs = do
  responses ← global_responses configs
  fail_as responder_failed (ErrorResponse.new std responses)
