-- ===== src/Upstream/LeastRequests/Selection.antt =====
-- The choice of Acquire in internal/upstream/least_requests.go.
use dev_gate.Common.{
  ℕ, zero, suc, ◌+◌, ◌-◌, ◌%◌, ◌≤◌, ◌<◌, ◌≡◌, refl, ap, subst, ◌∙◌, inl, inr, List, some, arith,
  ltb, length, Bool-cases,
}
use native.Mathlib.Nat.{mod-eq_of_lt, mod-lt}
use dev_gate.Upstream.LeastRequests.{
  Endpoint, LeastRequests, active, place, scan, take_permit, acquire,
}

-- k is the first of the offsets below n at which g is least.
abbrev pub First : (ℕ → ℕ) → ℕ → ℕ → Type 0
First g k n = (j : ℕ) → j < n → (g k ≤ g j) × (j < k → g k < g j)

First-keep : (g : ℕ → ℕ) (k n : ℕ) → k < n → g k ≤ g n → First g k n → First g k (n + 1)
First-keep g k n lt le f j h = elim (Bool-cases (ltb j n)) [
  | inl e ↦ ground (arith, f j)
  | inr e ↦ let q : j ≡ n = ground arith in rw q (le, λ bad. omega arith)
]

First-move : (g : ℕ → ℕ) (k n : ℕ) → k < n → g n < g k → First g k n → First g n (n + 1)
First-move g k n lt less f j h = elim (Bool-cases (ltb j n)) [
  | inl e ↦ ground (arith, f j)
  | inr e ↦ let q : j ≡ n = ground arith in rw q (omega arith, λ bad. omega arith)
]

module _ {Url : Type 0} (memory : ℕ → Endpoint Url) (endpoints : List ℕ) (start : ℕ) where
  -- The index at an offset from the start, and the load there.
  abbrev pub index : ℕ → ℕ
  index j = (start + j) % length endpoints

  abbrev pub load : ℕ → ℕ
  load j = active memory (place endpoints (index j))

  scan-First :
      (rounds offset k : ℕ)
      → k < offset
      → offset + rounds ≡ length endpoints
      → First load k offset
      → (m : ℕ) × (scan memory endpoints start rounds offset (index k) ≡ index m)
        × (m < length endpoints)
        × First load m (length endpoints)
  unfolding scan
  scan-First zero offset k lt e f =
      let q : offset ≡ length endpoints = omega arith in
      (k, refl, omega arith, subst (First load k) q f)
  scan-First (suc rounds) offset k lt e f = elim (Bool-cases (ltb (load offset) (load k))) [
    | inl less ↦ rw less (
        scan-First rounds (offset + 1) offset (omega arith) (omega arith)
          (First-move load k offset lt (ground arith) f))
    | inr more ↦ rw more (
        scan-First rounds (offset + 1) k (omega arith) (omega arith)
          (First-keep load k offset lt (ground arith) f))
  ]

acquire-scan :
    {Url : Type 0} (l : LeastRequests Url)
    → 0 < length l.endpoints
    → let start = l.cursor % length l.endpoints in
      acquire l
      ≡ some (take_permit l (scan l.memory l.endpoints start (length l.endpoints - 1) 1 start))
unfolding acquire
acquire-scan l h = ground arith

-- A picker with endpoints always grants a permit, at the first endpoint in cyclic order from the
-- cursor among those with the fewest active requests.
pub acquire-First :
    {Url : Type 0} (l : LeastRequests Url)
    → 0 < length l.endpoints
    → let start = l.cursor % length l.endpoints in
      (m : ℕ) × (m < length l.endpoints)
      × First (load l.memory l.endpoints start) m (length l.endpoints)
      × (acquire l ≡ some (take_permit l (index l.memory l.endpoints start m)))
acquire-First l h =
    let start = l.cursor % length l.endpoints in
    let g = load l.memory l.endpoints start in
    let here : start ≡ index l.memory l.endpoints start 0 = grind (arith, mod-eq_of_lt, mod-lt) in
    let (m, e, lt, f) =
      scan-First l.memory l.endpoints start (length l.endpoints - 1) 1 0 (omega arith) (omega arith)
        (λ j hj. ground (arith)) in
    (
      m,
      lt,
      f,
      acquire-scan l h
          ∙ ap (λ (b : ℕ). some (take_permit l b))
              (ap (scan l.memory l.endpoints start (length l.endpoints - 1) 1) here ∙ e),
    )
