-- ===== src/Router/Determinism.antt =====
-- A router that New of internal/router/router.go accepts selects the same route in any order.
use mathlib.Core.List.{Memᴰ, Permᴰ}
use mathlib.Core.List.Permᴰ.{symm}
use dev_gate.Common.{
  ◌≡◌, sym, ◌∙◌, ap, Bool, true, false, ◌&&◌, inl, inr, List, [], ◌∷◌, none, some, arith, codes,
  has_prefix, All, Bool-cases, eqz, ok,
}
use dev_gate.Router.Std.{Std, HeadersIgnoreCase}
use dev_gate.Router.Route.{Route}
use dev_gate.Router.Matching.{
  Request, is_exact, route_matches, route_matches_path, is_better, path_length, normalize_host,
  match_loop, match_route,
}
use dev_gate.Router.Construction.{new_loop, new}
use dev_gate.Router.Selection.{candidate, NoneBetter, match_loop-cases}
use dev_gate.Router.Overlap.{candidates-conflict, matched-key}
use dev_gate.Router.Acceptance.{
  HasValidNames, checked_names, validate-check_header_matches, accepted_valid, accepted_apart,
}

equal_rank :
    (a b : Route)
    → is_better a b ≡ false
    → is_better b a ≡ false
    → (path_length a ≡ path_length b)
      × (is_exact a ≡ is_exact b)
      × (eqz a.priority b.priority ≡ true)
unfolding is_better
equal_rank a b h k = (ground arith, ground arith, ground arith)

Memᴰ-perm {ℓ} : {A : Type ℓ} {xs ys : List A} (a : A) → Permᴰ xs ys → Memᴰ a xs → Memᴰ a ys
Memᴰ-perm a Permᴰ.nil m = m
Memᴰ-perm a (Permᴰ.cons e d) (Memᴰ.head f) = Memᴰ.head (f ∙ e)
Memᴰ-perm a (Permᴰ.cons e d) (Memᴰ.tail m) = Memᴰ.tail (Memᴰ-perm a d m)
Memᴰ-perm a (Permᴰ.swap e f) (Memᴰ.head g) = Memᴰ.tail (Memᴰ.head (g ∙ e))
Memᴰ-perm a (Permᴰ.swap e f) (Memᴰ.tail (Memᴰ.head g)) = Memᴰ.head (g ∙ f)
Memᴰ-perm a (Permᴰ.swap e f) (Memᴰ.tail (Memᴰ.tail m)) = Memᴰ.tail (Memᴰ.tail m)
Memᴰ-perm a (Permᴰ.trans d e) m = Memᴰ-perm a e (Memᴰ-perm a d m)

new-new_loop :
    (std : Std) (routes accepted : List Route)
    → new std routes ≡ ok accepted
    → new_loop std [] routes ≡ ok tt
unfolding new
new-new_loop std [] accepted h = absurd (cc)
new-new_loop std (r ∷ rs) accepted h = ground arith

no_candidate :
    (test : Route → Bool) (rs : List Route) (x : Route)
    → All (λ r. test r ≡ false) rs
    → Memᴰ x rs
    → test x ≡ true
    → ⊥
no_candidate test [] x a m h = elim m [ ]
no_candidate test (r ∷ rs) x a (Memᴰ.head e) h = let q : test x ≡ false = ap test e ∙ a.0 in cc
no_candidate test (r ∷ rs) x a (Memᴰ.tail m) h = no_candidate test rs x a.1 m h

second_fails : (a b : Bool) → a ≡ true → (a && b) ≡ false → b ≡ false
second_fails a b e h = ground arith

none_better :
    (std : Std) (q : Request) (x : Route) (rs : List Route) (y : Route)
    → NoneBetter std q x rs
    → Memᴰ y rs
    → candidate std q y ≡ true
    → is_better y x ≡ false
none_better std q x [] y a m h = elim m [ ]
none_better std q x (r ∷ rs) y a (Memᴰ.head e) h =
    ap (λ (z : Route). is_better z x) e
    ∙ second_fails (candidate std q r) (is_better r x) (sym (ap (candidate std q) e) ∙ h) a.0
none_better std q x (r ∷ rs) y a (Memᴰ.tail m) h = none_better std q x rs y a.1 m h

module _ (std : Std) (ignore : HeadersIgnoreCase std) (routes accepted : List Route)
    (new_ok : new std routes ≡ ok accepted) where
  valid_names : (x : Route) → Memᴰ x routes → HasValidNames std x
  valid_names x m = checked_names std [] x.header_matches (
      validate-check_header_matches std x
        (accepted_valid std [] routes x (new-new_loop std routes accepted new_ok) m))

  candidate-path :
      (q : Request) (x : Route) → candidate std q x ≡ true → route_matches_path x q.path ≡ true
  unfolding route_matches
  candidate-path q x h = ground arith

  -- Of two routes that match, neither of which is better, there is only one.
  unique_best :
      (q : Request) (x y : Route)
      → has_prefix q.path (codes "/") ≡ true
      → Memᴰ x routes
      → Memᴰ y routes
      → candidate std q x ≡ true
      → candidate std q y ≡ true
      → is_better x y ≡ false
      → is_better y x ≡ false
      → x ≡ y
  unique_best q x y root mx my cx cy bx by =
      let (l, e, p) = equal_rank x y bx by in
      let (l', e', p') = equal_rank y x by bx in
      let key = matched-key x y q.path root (candidate-path q x cx) (candidate-path q y cy) e l in
      let yek = matched-key y x q.path root (candidate-path q y cy) (candidate-path q x cx) e' l' in
      let c =
        candidates-conflict std ignore q.headers x y q.method q.host q.path (valid_names x mx)
          (valid_names y my) cx cy p in
      let c' =
        candidates-conflict std ignore q.headers y x q.method q.host q.path (valid_names y my)
          (valid_names x mx) cy cx p' in
      elim (accepted_apart std [] routes x y (new-new_loop std routes accepted new_ok) mx my key
        yek) [ inl e ↦ e | inr (inl n) ↦ absurd (cc) | inr (inr n) ↦ absurd (cc) ]

  -- The selection among the routes in this order is the one in another order.
  same_selection :
      (q : Request) (others : List Route)
      → has_prefix q.path (codes "/") ≡ true
      → Permᴰ routes others
      → Permᴰ others routes
      → match_loop std q none routes ≡ match_loop std q none others
  same_selection q others root p p' = elim (match_loop-cases std q routes) [
    | inl (e, a) ↦ elim (match_loop-cases std q others) [
      | inl (e', a') ↦ e ∙ sym e'
      | inr (y, e', s') ↦
          absurd (no_candidate (candidate std q) routes y a (Memᴰ-perm y p' s'.present) s'.matching)
    ]
    | inr (x, e, s) ↦ elim (match_loop-cases std q others) [
      | inl (e', a') ↦
          absurd (no_candidate (candidate std q) others x a' (Memᴰ-perm x p s.present) s.matching)
      | inr (y, e', s') ↦
          e
          ∙ ap some (
              unique_best q x y root s.present (Memᴰ-perm y p' s'.present) s.matching s'.matching
                (none_better std q y others x s'.best (Memᴰ-perm x p s.present) s.matching)
                (none_better std q x routes y s.best (Memᴰ-perm y p' s'.present) s'.matching))
          ∙ sym e'
    ]
  ]

-- For a header lookup that ignores the case of valid names, a router that New accepts selects the
-- same route, or none, for every request whatever the order in which its routes are configured.
pub match_route-perm :
    (std : Std) (routes accepted others : List Route) (q : Request)
    → HeadersIgnoreCase std
    → new std routes ≡ ok accepted
    → Permᴰ routes others
    → match_route std routes q ≡ match_route std others q
unfolding match_route
match_route-perm std routes accepted others q ignore e p =
    elim (Bool-cases (has_prefix q.path (codes "/"))) [
      | inr bad ↦ rw bad
      | inl root ↦ rw root (
          same_selection std ignore routes accepted e
            (record q { host = normalize_host std q.host }) others root p (symm p))
    ]
