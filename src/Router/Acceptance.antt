-- ===== src/Router/Acceptance.antt =====
-- What New of internal/router/router.go ensures of the routes that it accepts.
use mathlib.Core.List.{Memᴰ}
use dev_gate.Common.{
  ◌≡◌, refl, sym, ◌∙◌, subst, true, false, inl, inr, ◌⊎◌, List, [], ◌∷◌, ◌++◌, arith, Text, All, ok,
}
use dev_gate.Router.Std.{Std}
use dev_gate.Router.Route.{Route, HeaderMatch}
use dev_gate.Router.Validation.{validate, check_header_matches}
use dev_gate.Router.Validation.Headers.{validate_header_match}
use dev_gate.Router.Construction.{
  path_match_key, key_eq, conflicts, any_conflict, existing_routes, new_loop,
}

-- The names of the header matches are valid.
abbrev pub HasValidNames : Std → Route → Type 0
HasValidNames std r =
    All (λ (m : HeaderMatch). std.valid_header_field_name m.name ≡ true) r.header_matches

validate_header_match-name :
    (std : Std) (m : HeaderMatch)
    → validate_header_match std m ≡ ok tt
    → std.valid_header_field_name m.name ≡ true
unfolding validate_header_match
validate_header_match-name std m h = ground arith

check_header_matches-cons :
    (std : Std) (seen : List Text) (m : HeaderMatch) (ms : List HeaderMatch)
    → check_header_matches std seen (m ∷ ms) ≡ ok tt
    → (validate_header_match std m ≡ ok tt)
      × (check_header_matches std (std.to_lower m.name ∷ seen) ms ≡ ok tt)
unfolding check_header_matches
check_header_matches-cons std seen m ms h = (ground arith, ground arith)

pub checked_names :
    (std : Std) (seen : List Text) (ms : List HeaderMatch)
    → check_header_matches std seen ms ≡ ok tt
    → All (λ (m : HeaderMatch). std.valid_header_field_name m.name ≡ true) ms
checked_names std seen [] h = tt
checked_names std seen (m ∷ ms) h =
    let (one, rest) = check_header_matches-cons std seen m ms h in
    (validate_header_match-name std m one, checked_names std (std.to_lower m.name ∷ seen) ms rest)

pub validate-check_header_matches :
    (std : Std) (r : Route)
    → validate std r ≡ ok tt
    → check_header_matches std [] r.header_matches ≡ ok tt
unfolding validate
validate-check_header_matches std r h = ground arith

-- No accepted route conflicts with one before it of the same key.
no_conflict_at :
    (std : Std) (x y : Route) (earlier : List Route)
    → any_conflict std x (existing_routes x earlier) ≡ false
    → Memᴰ y earlier
    → key_eq (path_match_key y) (path_match_key x) ≡ true
    → conflicts std x y ≡ false
unfolding any_conflict existing_routes
no_conflict_at std x y [] h m k = elim m [ ]
no_conflict_at std x y (z ∷ earlier) h (Memᴰ.head e) k =
    rw e (
      ground
        (arith, subst (λ (r : Route). key_eq (path_match_key r) (path_match_key x) ≡ true) e k))
no_conflict_at std x y (z ∷ earlier) h (Memᴰ.tail m) k =
    no_conflict_at std x y earlier (ground arith) m k

snoc_left {ℓ} : {A : Type ℓ} (y z : A) (xs : List A) → Memᴰ y xs → Memᴰ y (xs ++ z ∷ [])
snoc_left y z [] m = elim m [ ]
snoc_left y z (x ∷ xs) (Memᴰ.head e) = Memᴰ.head e
snoc_left y z (x ∷ xs) (Memᴰ.tail m) = Memᴰ.tail (snoc_left y z xs m)

snoc_last {ℓ} : {A : Type ℓ} (z : A) (xs : List A) → Memᴰ z (xs ++ z ∷ [])
snoc_last z [] = Memᴰ.head refl
snoc_last z (x ∷ xs) = Memᴰ.tail (snoc_last z xs)

new_loop-cons :
    (std : Std) (earlier rs : List Route) (r : Route)
    → new_loop std earlier (r ∷ rs) ≡ ok tt
    → (validate std r ≡ ok tt)
      × (any_conflict std r (existing_routes r earlier) ≡ false)
      × (new_loop std (earlier ++ r ∷ []) rs ≡ ok tt)
unfolding new_loop
new_loop-cons std earlier rs r h = (ground arith, ground arith, ground arith)

pub accepted_valid :
    (std : Std) (earlier rs : List Route) (x : Route)
    → new_loop std earlier rs ≡ ok tt
    → Memᴰ x rs
    → validate std x ≡ ok tt
accepted_valid std earlier [] x h m = elim m [ ]
accepted_valid std earlier (r ∷ rs) x h (Memᴰ.head e) = rw e (new_loop-cons std earlier rs r h).0
accepted_valid std earlier (r ∷ rs) x h (Memᴰ.tail m) =
    accepted_valid std (earlier ++ r ∷ []) rs x (new_loop-cons std earlier rs r h).2 m

-- An accepted route against one before the loop.
accepted_later :
    (std : Std) (earlier rs : List Route) (x y : Route)
    → new_loop std earlier rs ≡ ok tt
    → Memᴰ y earlier
    → Memᴰ x rs
    → key_eq (path_match_key y) (path_match_key x) ≡ true
    → conflicts std x y ≡ false
accepted_later std earlier [] x y h my m k = elim m [ ]
accepted_later std earlier (r ∷ rs) x y h my (Memᴰ.head e) k =
    no_conflict_at std x y earlier (rw e (new_loop-cons std earlier rs r h).1) my k
accepted_later std earlier (r ∷ rs) x y h my (Memᴰ.tail m) k =
    accepted_later std (earlier ++ r ∷ []) rs x y (new_loop-cons std earlier rs r h).2
      (snoc_left y r earlier my) m k

-- Two accepted routes are one, or do not conflict in one of the two orders.
pub accepted_apart :
    (std : Std) (earlier rs : List Route) (x y : Route)
    → new_loop std earlier rs ≡ ok tt
    → Memᴰ x rs
    → Memᴰ y rs
    → key_eq (path_match_key x) (path_match_key y) ≡ true
    → key_eq (path_match_key y) (path_match_key x) ≡ true
    → (x ≡ y) ⊎ (conflicts std x y ≡ false) ⊎ (conflicts std y x ≡ false)
accepted_apart std earlier [] x y h m n k l = elim m [ ]
accepted_apart std earlier (r ∷ rs) x y h (Memᴰ.head e) (Memᴰ.head f) k l = inl (e ∙ sym f)
accepted_apart std earlier (r ∷ rs) x y h (Memᴰ.head e) (Memᴰ.tail m) k l = inr (
    inr (
      accepted_later std (earlier ++ r ∷ []) rs y x (new_loop-cons std earlier rs r h).2
        (rw e (snoc_last r earlier)) m k))
accepted_apart std earlier (r ∷ rs) x y h (Memᴰ.tail m) (Memᴰ.head f) k l = inr (
    inl (
      accepted_later std (earlier ++ r ∷ []) rs x y (new_loop-cons std earlier rs r h).2
        (rw f (snoc_last r earlier)) m l))
accepted_apart std earlier (r ∷ rs) x y h (Memᴰ.tail m) (Memᴰ.tail n) k l =
    accepted_apart std (earlier ++ r ∷ []) rs x y (new_loop-cons std earlier rs r h).2 m n k l
