-- ===== src/Upstream/LeastRequests/Permits.antt =====
-- The counts of internal/upstream/least_requests.go over histories of Acquire, release functions
-- and Replace in any order.
use dev_gate.Common.{
  ℕ, zero, suc, ◌≤◌, ◌<◌, ◌≡◌, refl, sym, subst, String, true, false, not, ◌&&◌, inl, inr, List, [],
  ◌∷◌, none, some, arith, if◌then◌else◌, ◌==◌, length, get_elem?, set, All, word, length-set,
  set-get_elem?_self, Bool-cases,
}
use dev_gate.Upstream.LeastRequests.{
  LeastRequests, Release, active, place, take_permit, acquire, release, replace,
}

pub record System (Url : Type 0) : Type 0 where
  pub picker : LeastRequests Url
  pub releases : List Release

pub data Op (Url : Type 0) : Type 0 where
  acquires : Op Url
  releases_at : ℕ → Op Url
  replaces : List Url → Op Url

-- The requests at an address that were not released.
abbrev pub holding : ℕ → List Release → ℕ
holding a [] = 0
holding a (r ∷ rs) = if r.selected == a && not r.released then suc (holding a rs) else holding a rs

-- The counts are exact, and nothing points beyond the allocated memory.
pub record Inv {Url : Type 0} (s : System Url) : Type 0 where
  pub exact : (a : ℕ) → a < s.picker.next → active s.picker.memory a ≡ holding a s.releases
  pub endpoints_allocated : All (λ a. a < s.picker.next) s.picker.endpoints
  pub releases_allocated : All (λ (r : Release). r.selected < s.picker.next) s.releases

module _ {Url : Type 0} (url_string : Url → String) where
  -- A panic or a refused list leaves the system as it was.
  unfoldable pub step : System Url → Op Url → System Url
  step s acquires = elim (acquire s.picker) [
    | none ↦ s
    | some (l, u, r) ↦ record { picker = l; releases = r ∷ s.releases }
  ]
  step s (releases_at i) = elim (get_elem? s.releases i) [
    | none ↦ s
    | some r ↦ record {
      picker = (release s.picker r).0;
      releases = set s.releases i (release s.picker r).1;
    }
  ]
  step s (replaces us) = elim (replace url_string s.picker us) [
    | none ↦ s
    | some l ↦ record s { picker = l }
  ]

  unfoldable pub run : System Url → List (Op Url) → System Url
  unfolding step
  run s [] = s
  run s (o ∷ os) = run (step s o) os

holding-le : (a : ℕ) (rs : List Release) → holding a rs ≤ length rs
holding-le a [] = omega arith
holding-le a (r ∷ rs) = ground (arith, holding-le a rs)

pub holding_none :
    (a n : ℕ) (rs : List Release)
    → n ≤ a
    → All (λ (r : Release). r.selected < n) rs
    → holding a rs ≡ 0
holding_none a n [] le h = refl
holding_none a n (r ∷ rs) le h = ground (arith, h.0, holding_none a n rs le h.1)

holding-set :
    (a i : ℕ) (r : Release) (rs : List Release)
    → get_elem? rs i ≡ some r
    → r.released ≡ false
    → holding a rs ≡ (
        if r.selected == a
        then suc (holding a (set rs i (record r { released = true })))
        else holding a (set rs i (record r { released = true })))
holding-set a i r [] e f = absurd (cc)
holding-set a zero r (q ∷ rs) e f = ground arith
holding-set a (suc i) r (q ∷ rs) e f = ground (arith, holding-set a i r rs e f)

get_allocated :
    (n i : ℕ) (r : Release) (rs : List Release)
    → get_elem? rs i ≡ some r
    → All (λ (r : Release). r.selected < n) rs
    → r.selected < n
get_allocated n i r [] e h = absurd (cc)
get_allocated n zero r (q ∷ rs) e h = ground (arith, h.0)
get_allocated n (suc i) r (q ∷ rs) e h = get_allocated n i r rs e h.1

set_allocated :
    (n i : ℕ) (r : Release) (rs : List Release)
    → r.selected < n
    → All (λ (r : Release). r.selected < n) rs
    → All (λ (r : Release). r.selected < n) (set rs i r)
set_allocated n i r [] lt h = tt
set_allocated n zero r (q ∷ rs) lt h = (lt, h.1)
set_allocated n (suc i) r (q ∷ rs) lt h = (h.0, set_allocated n i r rs lt h.1)

All-place : (n i : ℕ) (as_ : List ℕ) → i < length as_ → All (λ a. a < n) as_ → place as_ i < n
All-place n i [] lt h = elim lt [ ]
All-place n zero (a ∷ as_) lt h = h.0
All-place n (suc i) (a ∷ as_) lt h = All-place n i as_ (omega arith) h.1

module _ {Url : Type 0} where
  pub take_permit-Inv :
      (l : LeastRequests Url) (rs : List Release) (i : ℕ)
      → i < length l.endpoints
      → suc (length rs) < word
      → Inv (record { picker = l; releases = rs })
      → let (l', u, r) = take_permit l i in Inv (record { picker = l'; releases = r ∷ rs })
  unfolding take_permit
  take_permit-Inv l rs i lt small v =
      let low = All-place l.next i l.endpoints lt v.endpoints_allocated in
      record {
        exact =
            λ a h. ground (arith, v.exact a h, v.exact (place l.endpoints i) low, holding-le a rs);
        endpoints_allocated = v.endpoints_allocated;
        releases_allocated = (low, v.releases_allocated);
      }

  -- A release function has no effect after its first call.
  pub release_done :
      (l : LeastRequests Url) (r : Release) → r.released ≡ true → release l r ≡ (l, r)
  unfolding release
  release_done l r done = ground arith

  pub release-Inv :
      (l : LeastRequests Url) (rs : List Release) (i : ℕ) (r : Release)
      → get_elem? rs i ≡ some r
      → length rs < word
      → Inv (record { picker = l; releases = rs })
      → Inv (record { picker = (release l r).0; releases = set rs i (release l r).1 })
  unfolding release
  release-Inv l rs i r e small v = elim (Bool-cases r.released) [
    | inl done ↦
        subst
          (λ (q : LeastRequests Url × Release).
            Inv (record { picker = q.0; releases = set rs i q.1 }))
          (sym (release_done l r done)) (rw (set-get_elem?_self rs i r e) v)
    | inr live ↦
        let low = get_allocated l.next i r rs e v.releases_allocated in
        rw live (record {
          exact = λ a h. ground (
            arith,
            v.exact a h,
            holding-set a i r rs e live,
            holding-le a rs,
            holding-le a (set rs i (record r { released = true })),
            length-set rs i,
          );
          endpoints_allocated = v.endpoints_allocated;
          releases_allocated =
              set_allocated l.next i (record r { released = true }) rs low v.releases_allocated;
        })
  ]

pub allocated_later :
    (m n : ℕ) (rs : List Release)
    → m ≤ n
    → All (λ (r : Release). r.selected < m) rs
    → All (λ (r : Release). r.selected < n) rs
allocated_later m n [] le h = tt
allocated_later m n (r ∷ rs) le h = (omega (arith, h.0), allocated_later m n rs le h.1)
