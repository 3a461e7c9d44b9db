-- ===== src/Router/Std.antt =====
-- What internal/router asks of other packages.
use dev_gate.Common.{◌≡◌, Bool, true, Option, List, Text}

-- The fields of a `url.URL` that are read.
pub record Url : Type 0 where
  pub scheme : Text
  pub host : Text

-- What is asked of a `float64`: neither infinite nor NaN, and above 0.
pub record Float : Type 0 where
  pub finite : Bool
  pub positive : Bool

pub record Std : Type 0 where
  pub to_lower : Text → Text  -- strings.ToLower
  pub to_upper : Text → Text  -- strings.ToUpper
  pub trim_space : Text → Text  -- strings.TrimSpace
  pub equal_fold : Text → Text → Bool  -- strings.EqualFold
  pub valid_header_field_name : Text → Bool  -- httpguts.ValidHeaderFieldName
  pub valid_header_field_value : Text → Bool  -- httpguts.ValidHeaderFieldValue
  pub split_host_port : Text → Option Text  -- the host of net.SplitHostPort
  pub parse_url : Text → Option Url  -- url.Parse
  -- http.Header.Values, of the header of a request
  pub values : List (Text × List Text) → Text → List Text

-- The documented behaviour of http.Header.Values: names that are valid are read without regard to
-- case.
pub record HeadersIgnoreCase (std : Std) : Type 0 where
  pub values_lower :
      (h : List (Text × List Text)) (a b : Text)
      → std.valid_header_field_name a ≡ true
      → std.valid_header_field_name b ≡ true
      → std.to_lower a ≡ std.to_lower b
      → std.values h a ≡ std.values h b
