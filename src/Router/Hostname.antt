-- ===== src/Router/Hostname.antt =====
-- validateHostname of internal/router/route.go.
use dev_gate.Common.{
  is_empty, ℕ, Bool, not, ◌&&◌, ◌||◌, List, [], ◌∷◌, Text, codes, text_eq, has_prefix, has_suffix,
  split, ltb, leb, ◌==◌, length, Result, ok, ◌>>◌, reject,
}
use dev_gate.Router.Std.{Std}

pub data HostError : Type 0 where
  host_too_long host_empty host_not_lowercase host_trailing_dot : HostError
  label_empty label_too_long label_hyphen label_character : HostError

-- The bytes that a label may have.
abbrev pub is_host_byte : ℕ → Bool
is_host_byte c = (leb b'a' c && leb c b'z') || (leb b'0' c && leb c b'9') || c == b'-'

unfoldable pub check_bytes : Text → Result HostError (Unit {0})
check_bytes [] = ok tt
check_bytes (c ∷ cs) = do reject (not (is_host_byte c)) label_character; check_bytes cs

unfoldable pub check_label : Text → Result HostError (Unit {0})
unfolding has_prefix has_suffix check_bytes
check_label label = do
  reject (is_empty label) label_empty
  reject (ltb 63 (length label)) label_too_long
  reject (has_prefix label (codes "-") || has_suffix label (codes "-")) label_hyphen
  check_bytes label

unfoldable pub check_labels : List Text → Result HostError (Unit {0})
unfolding check_label
check_labels [] = ok tt
check_labels (label ∷ labels) = do check_label label; check_labels labels

unfoldable pub validate_hostname : Std → Text → Result HostError (Unit {0})
unfolding text_eq has_suffix split check_labels
validate_hostname std host = do
  reject (ltb 253 (length host)) host_too_long
  reject (is_empty (std.trim_space host)) host_empty
  reject (not (text_eq (std.to_lower host) host)) host_not_lowercase
  reject (has_suffix host (codes ".")) host_trailing_dot
  check_labels (split b'.' host)
