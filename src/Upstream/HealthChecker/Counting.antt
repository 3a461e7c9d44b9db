-- ===== src/Upstream/HealthChecker/Counting.antt =====
-- Indices among the jobs and the running checks of a round of internal/upstream/health_checker.go.
use dev_gate.Common.{
  ℕ, zero, suc, ◌+◌, ◌<◌, ◌≤◌, ◌≡◌, refl, ◌⊎◌, inl, inr, List, [], ◌∷◌, none, some, arith,
  if◌then◌else◌, ◌==◌, length, get_elem?, set, Bool-cases, Option,
}
use dev_gate.Upstream.HealthChecker.{Round, idle_workers, indices, zero_results}

abbrev pub count : ℕ → List ℕ → ℕ
count i [] = 0
count i (j ∷ js) = if i == j then suc (count i js) else count i js

-- The workers that have taken an index, and those that have taken any.
abbrev pub busy : ℕ → List (Option ℕ) → ℕ
busy i [] = 0
busy i (none ∷ ws) = busy i ws
busy i (some j ∷ ws) = if i == j then suc (busy i ws) else busy i ws

abbrev pub running : List (Option ℕ) → ℕ
running [] = 0
running (none ∷ ws) = running ws
running (some j ∷ ws) = suc (running ws)

-- How often an index is among the jobs or the running checks.
abbrev pub tasks : {Url : Type 0} → ℕ → Round Url → ℕ
tasks i r = count i r.jobs + busy i r.workers

pub running-length : (ws : List (Option ℕ)) → running ws ≤ length ws
running-length [] = omega arith
running-length (none ∷ ws) = omega (arith, running-length ws)
running-length (some j ∷ ws) = omega (arith, running-length ws)

pub length-set {ℓ} : {A : Type ℓ} (xs : List A) (i : ℕ) (x : A) → length (set xs i x) ≡ length xs
length-set [] i x = refl
length-set (y ∷ xs) zero x = omega arith
length-set (y ∷ xs) (suc i) x = omega (arith, length-set xs i x)

pub length-idle_workers : (n : ℕ) → length (idle_workers n) ≡ n
length-idle_workers zero = refl
length-idle_workers (suc n) = omega (arith, length-idle_workers n)

pub busy-idle_workers : (i n : ℕ) → busy i (idle_workers n) ≡ 0
busy-idle_workers i zero = refl
busy-idle_workers i (suc n) = busy-idle_workers i n

pub busy-taken :
    (i j place : ℕ) (ws : List (Option ℕ))
    → get_elem? ws place ≡ some none
    → busy i (set ws place (some j)) ≡ (if i == j then suc (busy i ws) else busy i ws)
busy-taken i j place [] e = absurd (ground (arith, e))
busy-taken i j zero (none ∷ ws) e = refl
busy-taken i j zero (some k ∷ ws) e = absurd (ground (arith, e))
busy-taken i j (suc place) (none ∷ ws) e = busy-taken i j place ws e
busy-taken i j (suc place) (some k ∷ ws) e = ground (arith, busy-taken i j place ws e)

pub busy-finished :
    (i j place : ℕ) (ws : List (Option ℕ))
    → get_elem? ws place ≡ some (some j)
    → busy i ws ≡ (if i == j then suc (busy i (set ws place none)) else busy i (set ws place none))
busy-finished i j place [] e = absurd (ground (arith, e))
busy-finished i j zero (none ∷ ws) e = absurd (ground (arith, e))
busy-finished i j zero (some k ∷ ws) e = ground (arith, e)
busy-finished i j (suc place) (none ∷ ws) e = busy-finished i j place ws e
busy-finished i j (suc place) (some k ∷ ws) e = ground (arith, busy-finished i j place ws e)

count-indices_before : (i k n : ℕ) → i < k → count i (indices k n) ≡ 0
count-indices_before i k zero lt = refl
count-indices_before i k (suc n) lt =
    ground (arith, count-indices_before i (k + 1) n (omega (arith, lt)))

pub count-indices : (i k n : ℕ) → k ≤ i → i < k + n → count i (indices k n) ≡ 1
count-indices i k zero lo hi = absurd (omega (arith, lo, hi))
count-indices i k (suc n) lo hi = elim (Bool-cases (i == k)) [
  | inl e ↦ ground (arith, e, count-indices_before i (k + 1) n)
  | inr e ↦ ground (arith, e, count-indices i (k + 1) n)
]

pub List-cases {ℓ} :
    {A : Type ℓ} (xs : List A) → (xs ≡ []) ⊎ ((x : A) × (ys : List A) × (xs ≡ x ∷ ys))
List-cases [] = inl refl
List-cases (x ∷ xs) = inr (x, xs, refl)

pub get_elem?-zero_results :
    {Url : Type 0} (i n : ℕ) → i < n → get_elem? (zero_results {Url = Url} n) i ≡ some none
get_elem?-zero_results i zero lt = absurd (omega (arith, lt))
get_elem?-zero_results zero (suc n) lt = refl
get_elem?-zero_results (suc i) (suc n) lt = get_elem?-zero_results i n (omega (arith, lt))

pub get_elem?-lt {ℓ} :
    {A : Type ℓ} (xs : List A) (i : ℕ) (x : A) → get_elem? xs i ≡ some x → i < length xs
get_elem?-lt [] i x e = absurd (cc)
get_elem?-lt (y ∷ xs) zero x e = omega arith
get_elem?-lt (y ∷ xs) (suc i) x e = omega (arith, get_elem?-lt xs i x e)

pub get_elem?-set {ℓ} :
    {A : Type ℓ} (xs : List A) (i j : ℕ) (v : A)
    → get_elem? (set xs i v) j ≡ (
        if i == j
        then (elim (get_elem? xs j) [ none ↦ none | some x ↦ some v ])
        else get_elem? xs j)
get_elem?-set [] i j v = ground arith
get_elem?-set (x ∷ xs) zero zero v = refl
get_elem?-set (x ∷ xs) zero (suc j) v = ground arith
get_elem?-set (x ∷ xs) (suc i) zero v = ground arith
get_elem?-set (x ∷ xs) (suc i) (suc j) v = ground (arith, get_elem?-set xs i j v)
