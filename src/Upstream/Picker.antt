-- ===== src/Upstream/Picker.antt =====
-- What internal/upstream/health_aware_picker.go asks of a picker. The value that an atomic pointer
-- or counter holds is a field of the picker's state; `none` as the result of Acquire is a panic, and
-- `none` as the result of Replace is its one error, that no endpoints are provided.
use mathlib.Core.List.{Memᴰ}
use dev_gate.Common.{
  ℕ, zero, suc, ◌<◌, ◌≡◌, refl, List, [], ◌∷◌, Option, some, arith, length, get_elem?,
}

-- A replaceable picker whose state is a `P` and whose release functions are an `R`, and its
-- promise: a picker that serves a set of endpoints goes on to pick among them.
pub record ReplaceablePicker (Url R P : Type 0) : Type 1 where
  pub acquire : P → Option (P × Url × R)
  pub replace : P → List Url → Option P
  pub Serves : P → List Url → Type 0
  pub replace_serves :
      (p : P) (u : Url) (us : List Url)
      → (q : P) × (replace p (u ∷ us) ≡ some q) × Serves q (u ∷ us)
  pub acquire_serves :
      (p : P) (us : List Url)
      → Serves p us
      → (q : P) × (v : Url) × (r : R) × (acquire p ≡ some (q, v, r)) × Memᴰ v us × Serves q us

-- A read inside a snapshot.
pub get_elem?-Memᴰ {ℓ} :
    {A : Type ℓ} (xs : List A) (i : ℕ)
    → i < length xs
    → (x : A) × (get_elem? xs i ≡ some x) × Memᴰ x xs
get_elem?-Memᴰ [] i lt = absurd (omega (arith, lt))
get_elem?-Memᴰ (x ∷ xs) zero lt = (x, refl, Memᴰ.head refl)
get_elem?-Memᴰ (x ∷ xs) (suc i) lt =
    let (y, e, m) = get_elem?-Memᴰ xs i (omega (arith, lt)) in (y, e, Memᴰ.tail m)
