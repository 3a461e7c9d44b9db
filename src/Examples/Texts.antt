-- ===== src/Examples/Texts.antt =====
-- Text functions on ASCII in place of the packages that internal/router calls.
use dev_gate.Common.{
  ℕ, ◌+◌, ◌-◌, ap, Bool, true, false, not, ◌&&◌, List, [], ◌∷◌, Option, none, some, map, Text,
  text_eq, if◌then◌else◌, leb, ◌==◌,
}
use dev_gate.Router.Std.{Std, Url, HeadersIgnoreCase}
use mathlib.Core.List.{reverse}

abbrev lower : ℕ → ℕ
lower c = if leb b'A' c && leb c b'Z' then c + 32 else c

abbrev upper : ℕ → ℕ
upper c = if leb b'a' c && leb c b'z' then c - 32 else c

abbrev is_token : Text → Bool
is_token [] = true
is_token (c ∷ cs) = leb 33 c && leb c 126 && not (c == b':') && not (c == b',') && is_token cs

abbrev is_name : Text → Bool
is_name [] = false
is_name s = is_token s

abbrev is_value : Text → Bool
is_value [] = true
is_value (c ∷ cs) = leb 32 c && not (c == 127) && is_value cs

abbrev trim_left : Text → Text
trim_left [] = []
trim_left (c ∷ cs) = if c == 32 then trim_left cs else c ∷ cs

abbrev before_colon : Text → Option Text
before_colon [] = none
before_colon (c ∷ cs) =
    if c == b':' then some [] else elim (before_colon cs) [ none ↦ none | some s ↦ some (c ∷ s) ]

unfoldable pub values_at : List (Text × List Text) → Text → List Text
unfolding text_eq
values_at [] name = []
values_at ((n, vs) ∷ h) name = if text_eq (map lower n) name then vs else values_at h name

-- A URL of a scheme of four letters and a host, or of neither.
abbrev http_url : Text → Url
http_url (h ∷ t ∷ u ∷ p ∷ colon ∷ a ∷ b ∷ host) =
    if colon == b':' && a == b'/' && b == b'/'
    then record { scheme = h ∷ t ∷ u ∷ p ∷ []; host = host }
    else record { scheme = []; host = [] }
http_url _ = record { scheme = []; host = [] }

abbrev pub ascii : Std
ascii = record {
  to_lower = map lower;
  to_upper = map upper;
  trim_space = λ s. reverse (trim_left (reverse (trim_left s)));
  equal_fold = λ s t. text_eq (map lower s) (map lower t);
  valid_header_field_name = is_name;
  valid_header_field_value = is_value;
  split_host_port = before_colon;
  parse_url = λ s. some (http_url s);
  values = λ h name. values_at h (map lower name);
}

pub ascii_ignores_case : HeadersIgnoreCase ascii
ascii_ignores_case = record { values_lower = λ h a b va vb e. ap (values_at h) e }
