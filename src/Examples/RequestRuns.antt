-- ===== src/Examples/RequestRuns.antt =====
-- internal/requestid and the proxy over headers that are functions from lower-case names.
use mathlib.Core.Option.{some-injective}
use dev_gate.Common.{
  ℕ, suc, zero, ◌+◌, ◌*◌, ◌-◌, ◌/◌, ◌%◌, ◌<◌, ◌≡◌, refl, subst, false, true, List, [], ◌∷◌, ◌++◌,
  Option, none, some, arith, if◌then◌else◌, ltb, codes, Text, text_eq, text_eq_iff, length, All,
  split,
}
use dev_gate.Http.{Headers}
use dev_gate.Gateway.Writer.{Call, header}
use dev_gate.Router.Route.{HeaderTransformPolicy}
use dev_gate.Proxy.ReverseProxy.{ProxiedRequest, ReverseProxy}
use dev_gate.Proxy.ReverseProxy.RequestIds.{applied, is_hop_by_hop, names_one, lists}
use dev_gate.Middleware.RequestId.{Hex, Reader, Serving, header_name}
use dev_gate.Examples.Texts.{ascii}

abbrev digit : ℕ → ℕ
digit d = if ltb d 10 then 48 + d else 87 + d

abbrev undigit : ℕ → ℕ
undigit c = if ltb c 58 then c - 48 else c - 87

abbrev encode : List ℕ → Text
encode [] = []
encode (b ∷ bs) = digit (b / 16) ∷ digit (b % 16) ∷ encode bs

abbrev decode : Text → Option (List ℕ)
decode [] = some []
decode (c ∷ []) = none
decode (c ∷ d ∷ s) = elim (decode s) [
  | none ↦ none
  | some bs ↦ some ((undigit c * 16 + undigit d) ∷ bs)
]

pub length-encoded : (bs : List ℕ) → length (encode bs) ≡ 2 * length bs
length-encoded [] = refl
length-encoded (b ∷ bs) = omega (arith, length-encoded bs)

digits_lem : (b : ℕ) → b < 256 → undigit (digit (b / 16)) * 16 + undigit (digit (b % 16)) ≡ b
digits_lem b small = ground arith

pub decode-encoded : (bs : List ℕ) → All (λ b. b < 256) bs → decode (encode bs) ≡ some bs
decode-encoded [] h = refl
decode-encoded (b ∷ bs) h = rw (decode-encoded bs h.1, digits_lem b h.0) refl

abbrev hex : Hex
hex = record {
  encode_to_string = encode;
  decode_string = decode;
  length-encode = length-encoded;
  decode-encode = decode-encoded;
}

abbrev copies : ℕ → ℕ → List ℕ
copies b zero = []
copies b (suc n) = b ∷ copies b n

pub length-copies : (b n : ℕ) → length (copies b n) ≡ n
length-copies b zero = refl
length-copies b (suc n) = omega (arith, length-copies b n)

pub bytes_of_copies : (b n : ℕ) → b < 256 → All (λ c. c < 256) (copies b n)
bytes_of_copies b zero small = tt
bytes_of_copies b (suc n) small = (small, bytes_of_copies b n small)

pub read_copies :
    (r n : ℕ) (bs : List ℕ)
    → ◌≡◌ {A = Option (List ℕ)} (some (copies (r % 256) n)) (some bs)
    → (length bs ≡ n) × All (λ c. c < 256) bs
read_copies r n bs e =
    subst (λ xs. (length xs ≡ n) × All (λ c. c < 256) xs) (some-injective (copies (r % 256) n) bs e)
      (length-copies (r % 256) n, bytes_of_copies (r % 256) n (omega arith))

abbrev reader : Reader ℕ
reader = record {
  read_full = λ r n. (r + 1, some (copies (r % 256) n));
  read_full_bytes = read_copies;
}

abbrev pub Values : Type 0
Values = Text → List Text

abbrev lower_name : Text → Text
lower_name = ascii.to_lower

pub read_again : (a : Text) (here other : List Text) → (if text_eq a a then here else other) ≡ here
read_again a here other = rw ((text_eq_iff a a).1 refl) refl

pub read_other :
    (a b : Text) (here other : List Text)
    → text_eq a b ≡ false
    → (if text_eq a b then here else other) ≡ other
read_other a b here other e = rw e refl

abbrev pub headers : Headers lower_name Values
headers = record {
  values = λ h name. h (lower_name name);
  set_header = λ h name value k. if text_eq (lower_name name) k then value ∷ [] else h k;
  del = λ h name k. if text_eq (lower_name name) k then [] else h k;
  add_all = λ h g k. h k ++ g k;
  values_set = λ h name value. read_again (lower_name name) (value ∷ []) (h (lower_name name));
  values_set_other =
      λ h a value b. read_other (lower_name a) (lower_name b) (value ∷ []) (h (lower_name b));
  values_del = λ h name. read_again (lower_name name) [] (h (lower_name name));
  values_del_other = λ h a b. read_other (lower_name a) (lower_name b) [] (h (lower_name b));
  values_add_all = λ h g name. refl;
}

abbrev policy : HeaderTransformPolicy
policy = record { set = (codes "X-Env", codes "test") ∷ []; remove = codes "Cookie" ∷ [] }

-- The upstream sends an identifier of its own.
abbrev from_upstream : Values
from_upstream k = codes "theirs" ∷ []

-- An `ℕ` is a URL, a release function or a trailer.
abbrev proxy : ReverseProxy ℕ Values ℕ
proxy = record {
  request_header_transform = applied headers (some policy);
  response_header_transform = none;
  trusted_cidrs = 10 ∷ [];
  outbound = λ h k. if is_hop_by_hop ascii headers h k then [] else h k;
  set_url = λ u target. target;
  set_x_forwarded = λ h. h;
}

abbrev request : ProxiedRequest ℕ ℕ ℕ Values
request = record {
  acquired = some (7, 1);
  release = none;
  target = none;
  url = 0;
  remote_addr = codes "r";
  trailer = 0;
  header = λ k. [];
}

abbrev client : Serving Values
client = record {
  context_id = none;
  request_header = λ k. codes "mine" ∷ [];
  response_header = λ k. [];
}

-- A client that has the identifier removed.
abbrev removing : Values
removing k =
    if text_eq k (codes "connection") then codes "close, X-Request-Id" ∷ [] else codes "mine" ∷ []

removed : is_hop_by_hop ascii headers removing header_name ≡ true
unfolding lists names_one text_eq split
removed = refl

abbrev statuses : ℕ → List Call
statuses status = header status ∷ []

abbrev id : Text
id = encode (copies 171 16)
