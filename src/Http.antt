-- ===== src/Http.antt =====
-- What the transports and middlewares see of an HTTP exchange, by `net/http`.
use dev_gate.Common.{ℕ, ◌≡◌, Bool, false, Option, List, [], ◌∷◌, ◌++◌, Text, text_eq}

-- The outcome of one `RoundTrip`: `canceled` is `req.Context().Err() != nil` after it.
pub record Exchange : Type 0 where
  pub canceled : Bool
  pub error : Bool
  pub status_code : Option ℕ  -- none is a nil response

-- Headers whose state is an `H`, with the documented behaviour of Set, Del and Values of
-- http.Header; `add_all` is the copy of a response's header to the client's by httputil.ReverseProxy.
-- Names that differ in more than their case, by `lower`, are different.
pub record Headers (lower : Text → Text) (H : Type 0) : Type 0 where
  pub values : H → Text → List Text
  pub set_header : H → Text → Text → H
  pub del : H → Text → H
  pub add_all : H → H → H
  pub values_set : (h : H) (name value : Text) → values (set_header h name value) name ≡ value ∷ []
  pub values_set_other :
      (h : H) (a value b : Text)
      → text_eq (lower a) (lower b) ≡ false
      → values (set_header h a value) b ≡ values h b
  pub values_del : (h : H) (name : Text) → values (del h name) name ≡ []
  pub values_del_other :
      (h : H) (a b : Text) → text_eq (lower a) (lower b) ≡ false → values (del h a) b ≡ values h b
  pub values_add_all :
      (h g : H) (name : Text) → values (add_all h g) name ≡ values h name ++ values g name
