-- ===== src/Router/Overlap.antt =====
-- Two routes of internal/router/router.go that match one request overlap in methods, hosts and
-- headers, and in their path matcher where its kind and length are the same.
use dev_gate.Common.{
  ◌≡◌, refl, sym, ◌∙◌, ap, true, false, inl, inr, List, [], ◌∷◌, ◌++◌, some, arith, Text, codes,
  text_eq, text_eq_iff, has_prefix, contains, All, Bool-cases, Option-cases, length, eqz,
}
use dev_gate.Router.Std.{Std, HeadersIgnoreCase}
use dev_gate.Router.Route.{Route, HeaderMatch}
use dev_gate.Router.Matching.{
  is_exact, route_matches_path, matches_any, headers_match, one_value, route_matches, path_length,
}
use dev_gate.Router.Construction.{
  path_match_key, key_eq, meets, sets_overlap, exact_at, agrees, header_match_sets_overlap,
  conflicts,
}

text_eq_refl : (s : Text) → text_eq s s ≡ true
text_eq_refl s = (text_eq_iff s s).1 refl

contains-meets :
    (ss ts : List Text) (t : Text)
    → contains ss t ≡ true
    → contains ts t ≡ true
    → meets ss ts ≡ true
unfolding contains meets
contains-meets ss [] t h k = absurd (cc)
contains-meets ss (u ∷ ts) t h k = ground (arith, contains-meets ss ts t h, text_eq_iff u t)

matches-overlap :
    (ss ts : List Text) (t : Text)
    → matches_any ss t ≡ true
    → matches_any ts t ≡ true
    → sets_overlap ss ts ≡ true
unfolding matches_any sets_overlap
matches-overlap [] ts t h k = refl
matches-overlap (s ∷ ss) [] t h k = refl
matches-overlap (s ∷ ss) (u ∷ ts) t h k = contains-meets (s ∷ ss) (u ∷ ts) t h k

one_value-eq : (vs : List Text) (exact : Text) → one_value vs exact ≡ true → vs ≡ exact ∷ []
unfolding one_value
one_value-eq [] exact h = absurd (cc)
one_value-eq (v ∷ []) exact h = ap (λ (t : Text). t ∷ []) ((text_eq_iff v exact).0 h)
one_value-eq (v ∷ w ∷ vs) exact h = absurd (cc)

module _ (std : Std) (ignore : HeadersIgnoreCase std) (headers : List (Text × List Text)) where
  abbrev ValidNames : List HeaderMatch → Type 0
  ValidNames = All (λ (m : HeaderMatch). std.valid_header_field_name m.name ≡ true)

  -- Where the headers match, the map of the current matches holds the value of the header.
  exact_at-value :
      (name n exact : Text) (ms : List HeaderMatch)
      → std.valid_header_field_name n ≡ true
      → std.to_lower n ≡ name
      → ValidNames ms
      → headers_match std ms headers ≡ true
      → exact_at std name ms ≡ some exact
      → std.values headers n ≡ exact ∷ []
  unfolding exact_at headers_match
  exact_at-value name n exact [] vn low v h e = absurd (cc)
  exact_at-value name n exact (m ∷ ms) vn low v h e = elim (Option-cases (exact_at std name ms)) [
    | inr (x, f) ↦ exact_at-value name n exact ms vn low v.1 (ground arith) (ground arith)
    | inl f ↦
        ignore.values_lower headers n m.name vn v.0
          (low ∙ sym ((text_eq_iff (std.to_lower m.name) name).0 (ground arith)))
        ∙ one_value-eq (std.values headers m.name) exact (ground arith)
  ]

  agrees-match :
      (cs es : List HeaderMatch)
      → ValidNames cs
      → ValidNames es
      → headers_match std cs headers ≡ true
      → headers_match std es headers ≡ true
      → agrees std cs es ≡ true
  unfolding agrees headers_match
  agrees-match cs [] vc ve h k = refl
  agrees-match cs (e ∷ es) vc ve h k = elim (Option-cases (exact_at std (std.to_lower e.name) cs)) [
    | inl f ↦ ground (arith, f, agrees-match cs es vc ve.1 h)
    | inr (x, f) ↦
        let p = exact_at-value (std.to_lower e.name) e.name x cs ve.0 refl vc h f in
        let q = one_value-eq (std.values headers e.name) e.exact (ground arith) in
        let same : x ≡ e.exact = cc in
        ground (arith, f, (text_eq_iff x e.exact).1 same, agrees-match cs es vc ve.1 h)
  ]

  headers-overlap :
      (cs es : List HeaderMatch)
      → ValidNames cs
      → ValidNames es
      → headers_match std cs headers ≡ true
      → headers_match std es headers ≡ true
      → header_match_sets_overlap std cs es ≡ true
  unfolding header_match_sets_overlap
  headers-overlap [] es vc ve h k = refl
  headers-overlap (c ∷ cs) [] vc ve h k = refl
  headers-overlap (c ∷ cs) (e ∷ es) vc ve h k = agrees-match (c ∷ cs) (e ∷ es) vc ve h k

  -- Two routes of equal priority that match one request conflict.
  pub candidates-conflict :
      (a b : Route) (method host path : Text)
      → ValidNames a.header_matches
      → ValidNames b.header_matches
      → route_matches std a method host path headers ≡ true
      → route_matches std b method host path headers ≡ true
      → eqz a.priority b.priority ≡ true
      → conflicts std a b ≡ true
  unfolding route_matches conflicts
  candidates-conflict a b method host path va vb h k e = ground (
    arith,
    matches-overlap a.methods b.methods method,
    matches-overlap a.hosts b.hosts host,
    headers-overlap a.header_matches b.header_matches va vb,
  )

has_prefix_unique :
    (s p q : Text) → has_prefix s p ≡ true → has_prefix s q ≡ true → length p ≡ length q → p ≡ q
unfolding has_prefix
has_prefix_unique s [] [] h k e = refl
has_prefix_unique s [] (b ∷ q) h k e = absurd (omega arith)
has_prefix_unique s (a ∷ p) [] h k e = absurd (omega arith)
has_prefix_unique [] (a ∷ p) (b ∷ q) h k e = absurd (cc)
has_prefix_unique (c ∷ s) (a ∷ p) (b ∷ q) h k e = ground (arith, has_prefix_unique s p q)

has_prefix_refl : (s : Text) → has_prefix s s ≡ true
unfolding has_prefix
has_prefix_refl [] = refl
has_prefix_refl (a ∷ s) = ground (arith, has_prefix_refl s)

has_prefix-append : (s p t : Text) → has_prefix s (p ++ t) ≡ true → has_prefix s p ≡ true
unfolding has_prefix
has_prefix-append s [] t h = refl
has_prefix-append [] (b ∷ p) t h = absurd (cc)
has_prefix-append (a ∷ s) (b ∷ p) t h = ground (arith, has_prefix-append s p t)

-- A prefix matcher matches only paths that begin with it.
matched-prefix :
    (r : Route) (path : Text)
    → is_exact r ≡ false
    → has_prefix path (codes "/") ≡ true
    → route_matches_path r path ≡ true
    → has_prefix path r.path_prefix ≡ true
unfolding route_matches_path
matched-prefix r path e root h = ground (
  arith,
  text_eq_iff r.path_prefix (codes "/"),
  text_eq_iff path r.path_prefix,
  has_prefix_refl path,
  has_prefix-append path r.path_prefix (codes "/"),
)

exact_key :
    (a b : Route) (path : Text)
    → is_exact a ≡ true
    → is_exact b ≡ true
    → route_matches_path a path ≡ true
    → route_matches_path b path ≡ true
    → key_eq (path_match_key a) (path_match_key b) ≡ true
unfolding key_eq path_match_key route_matches_path
exact_key a b path x y h k = ground (
  arith,
  text_eq_iff path a.path_exact,
  text_eq_iff path b.path_exact,
  text_eq_iff a.path_exact b.path_exact,
)

prefix_key :
    (a b : Route) (path : Text)
    → is_exact a ≡ false
    → is_exact b ≡ false
    → a.path_prefix ≡ b.path_prefix
    → key_eq (path_match_key a) (path_match_key b) ≡ true
unfolding key_eq path_match_key
prefix_key a b path x y e = ground (arith, text_eq_iff a.path_prefix b.path_prefix)

prefix_length :
    (a b : Route)
    → is_exact a ≡ false
    → is_exact b ≡ false
    → path_length a ≡ path_length b
    → length a.path_prefix ≡ length b.path_prefix
unfolding path_length
prefix_length a b x y l = ground arith

-- Two routes of the same kind and length that match one path have the same key.
pub matched-key :
    (a b : Route) (path : Text)
    → has_prefix path (codes "/") ≡ true
    → route_matches_path a path ≡ true
    → route_matches_path b path ≡ true
    → is_exact a ≡ is_exact b
    → path_length a ≡ path_length b
    → key_eq (path_match_key a) (path_match_key b) ≡ true
matched-key a b path root h k e l = elim (Bool-cases (is_exact a)) [
  | inl x ↦ exact_key a b path x (sym e ∙ x) h k
  | inr x ↦ prefix_key a b path x (sym e ∙ x) (
      has_prefix_unique path a.path_prefix b.path_prefix (matched-prefix a path x root h)
        (matched-prefix b path (sym e ∙ x) root k) (prefix_length a b x (sym e ∙ x) l))
]
