-- ===== src/Upstream/CompositeHealthSource.antt =====
-- internal/upstream/composite_health_source.go. The objects behind the
-- sources are one state `S`, which a call of HealthyEndpoints may change.
use text.Mathlib.Text.{◌==◌ as str_eq}
use dev_gate.Common.{
  ◌≡◌, refl, ap, ◌∙◌, String, Bool, true, false, ◌&&◌, ◌||◌, List, [], ◌∷◌, Option, none, some,
  Result, err, ok, arith, select,
}

abbrev pub HealthyEndpointSource : Type 0 → Type 0 → Type 0
HealthyEndpointSource Url S = S → S × List Url

pub data CompositeError : Type 0 where
  no_sources nil_source : CompositeError

-- A source is given unless it is nil.
unfoldable pub all_given {ℓ} : {A : Type ℓ} → List (Option A) → Option (List A)
all_given [] = some []
all_given (none ∷ os) = none
all_given (some a ∷ os) = elim (all_given os) [ none ↦ none | some rest ↦ some (a ∷ rest) ]

unfoldable pub new :
    {Url S : Type 0}
    → List (Option (HealthyEndpointSource Url S))
    → Result CompositeError (List (HealthyEndpointSource Url S))
new [] = err no_sources
new (o ∷ os) = elim (all_given (o ∷ os)) [ none ↦ err nil_source | some given ↦ ok given ]

module _ {Url : Type 0} (url_string : Url → String) where
  -- The keys of the set allowedSourceEndpoints.
  unfoldable pub allows : List Url → String → Bool
  allows [] key = false
  allows (u ∷ us) key = str_eq (url_string u) key || allows us key

  unfoldable pub all_allow : List (List Url) → String → Bool
  all_allow [] key = true
  all_allow (us ∷ uss) key = allows us key && all_allow uss key

  abbrev pub allowed_by : List (List Url) → Url → Bool
  allowed_by uss u = all_allow uss (url_string u)

  select-select :
      (us : List Url) (uss : List (List Url)) (vs : List Url)
      → select (allowed_by uss) (select (λ u. allows us (url_string u)) vs)
        ≡ select (allowed_by (us ∷ uss)) vs
  unfolding all_allow
  select-select us uss [] = refl
  select-select us uss (v ∷ vs) = ground (arith, select-select us uss vs)

  select_all : (vs : List Url) → vs ≡ select (allowed_by []) vs
  unfolding all_allow
  select_all [] = refl
  select_all (v ∷ vs) = ap (◌∷◌ v) (select_all vs)

module _ {Url S : Type 0} (url_string : Url → String) where
  -- The loop of HealthyEndpoints.
  unfoldable pub intersect_loop : S → List Url → List (HealthyEndpointSource Url S) → S × List Url
  intersect_loop s healthy [] = (s, healthy)
  intersect_loop s healthy (source ∷ sources) =
      let (s', endpoints) = source s in
      intersect_loop s' (select (λ u. allows url_string endpoints (url_string u)) healthy) sources

  -- `none` is a panic at `s.sources[0]`.
  unfoldable pub healthy_endpoints : List (HealthyEndpointSource Url S) → S → Option (S × List Url)
  healthy_endpoints [] s = none
  healthy_endpoints (source ∷ sources) s =
      let (s', healthy) = source s in some (intersect_loop s' healthy sources)

  -- The readings of sources, one after another.
  unfoldable pub readings : S → List (HealthyEndpointSource Url S) → List (List Url)
  readings s [] = []
  readings s (source ∷ sources) = let (s', endpoints) = source s in endpoints ∷ readings s' sources

  intersect_loop_lem :
      (s : S) (healthy : List Url) (sources : List (HealthyEndpointSource Url S))
      → (intersect_loop s healthy sources).1
        ≡ select (allowed_by url_string (readings s sources)) healthy
  unfolding intersect_loop readings
  intersect_loop_lem s healthy [] = select_all url_string healthy
  intersect_loop_lem s healthy (source ∷ sources) =
      let (s', endpoints) = source s in
      intersect_loop_lem s' (select (λ u. allows url_string endpoints (url_string u)) healthy)
        sources
      ∙ select-select url_string endpoints (readings s' sources) healthy

  -- The endpoints that a composite source of at least one source reports are those of its first
  -- reading, in order and repeated as there, whose text is one of every other source's reading.
  pub healthy_endpoints_lem :
      (source : HealthyEndpointSource Url S) (sources : List (HealthyEndpointSource Url S)) (s : S)
      → (after : S) × (healthy_endpoints (source ∷ sources) s
          ≡ some
              (after, select (allowed_by url_string (readings (source s).0 sources)) (source s).1))
  unfolding healthy_endpoints
  healthy_endpoints_lem source sources s = (
    (intersect_loop (source s).0 (source s).1 sources).0,
    ap (λ us. some ((intersect_loop (source s).0 (source s).1 sources).0, us))
        (intersect_loop_lem (source s).0 (source s).1 sources),
  )
