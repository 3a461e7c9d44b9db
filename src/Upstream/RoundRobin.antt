-- ===== src/Upstream/RoundRobin.antt =====
-- internal/upstream/round_robin.go. The functions that Acquire returns for a release do nothing.
use native.Mathlib.Nat.{mod-lt}
use mathlib.Core.List.{Memᴰ}
use dev_gate.Common.{
  ℕ, zero, suc, ◌+◌, ◌%◌, ◌<◌, ◌≡◌, refl, sym, ap, ◌∙◌, subst, List, [], ◌∷◌, Option, none, some,
  arith, word, length, get_elem?,
}
use dev_gate.Upstream.Picker.{ReplaceablePicker, get_elem?-Memᴰ}

pub record RoundRobin (Url : Type 0) : Type 0 where
  pub snapshot : List Url
  pub next : ℕ  -- uint64

module _ {Url : Type 0} where
  unfoldable pub acquire : RoundRobin Url → Option (RoundRobin Url × Url × Unit {0})
  acquire r = elim (get_elem? r.snapshot (r.next % length r.snapshot)) [
    | none ↦ none
    | some u ↦ some (record r { next = (r.next + 1) % word }, u, tt)
  ]

  unfoldable pub replace : RoundRobin Url → List Url → Option (RoundRobin Url)
  replace r [] = none
  replace r (u ∷ us) = some (record r { snapshot = u ∷ us })

  unfoldable pub new : List Url → Option (RoundRobin Url)
  unfolding replace
  new us = replace (record { snapshot = []; next = 0 }) us

  -- A request of a picker that has a snapshot.
  acquire_next :
      (r : RoundRobin Url)
      → 0 < length r.snapshot
      → (v : Url) × (acquire r ≡ some (record r { next = (r.next + 1) % word }, v, tt))
        × (get_elem? r.snapshot (r.next % length r.snapshot) ≡ some v)
        × Memᴰ v r.snapshot
  unfolding acquire
  acquire_next r some_left =
      let (v, at, m) =
        get_elem?-Memᴰ r.snapshot (r.next % length r.snapshot) (mod-lt r.next some_left) in
      (v, rw (at, acquire) refl, at, m)

  abbrev pub Holds : RoundRobin Url → List Url → Type 0
  Holds r us = (r.snapshot ≡ us) × (0 < length us)

  pub acquire-Holds :
      (r : RoundRobin Url) (us : List Url)
      → Holds r us
      → (q : RoundRobin Url) × (v : Url) × (w : Unit {0}) × (acquire r ≡ some (q, v, w))
        × Memᴰ v us
        × Holds q us
  acquire-Holds r us (e, left) =
      let (v, taken, _, m) = acquire_next r (subst (λ xs. 0 < length xs) (sym e) left) in
      (record r { next = (r.next + 1) % word }, v, tt, taken, subst (Memᴰ v) e m, (e, left))

  pub replace-Holds :
      (r : RoundRobin Url) (u : Url) (us : List Url)
      → (q : RoundRobin Url) × (replace r (u ∷ us) ≡ some q) × Holds q (u ∷ us)
  unfolding replace
  replace-Holds r u us = (record r { snapshot = u ∷ us }, refl, (refl, omega arith))

  abbrev pub picker : ReplaceablePicker Url (Unit {0}) (RoundRobin Url)
  picker = record {
    acquire = acquire;
    replace = replace;
    Serves = Holds;
    replace_serves = replace-Holds;
    acquire_serves = acquire-Holds;
  }

  -- The endpoints that consecutive requests are given.
  unfoldable pub serve : ℕ → RoundRobin Url → List Url
  serve zero r = []
  serve (suc n) r = elim (acquire r) [ none ↦ [] | some (q, u, release) ↦ u ∷ serve n q ]

  -- Of consecutive requests of a picker that has endpoints, as long as its counter does not wrap,
  -- each is given the endpoint whose place is its number, counted on from the counter, modulo the
  -- number of endpoints.
  pub serve_cyclic :
      (r : RoundRobin Url) (n i : ℕ)
      → i < n
      → 0 < length r.snapshot
      → r.next + n < word
      → get_elem? (serve n r) i ≡ get_elem? r.snapshot ((r.next + i) % length r.snapshot)
  unfolding serve
  serve_cyclic r zero i lt left small = absurd (omega (arith, lt))
  serve_cyclic r (suc n) zero lt left small =
      let (v, taken, at, m) = acquire_next r left in
      rw (taken, serve)
        (sym at ∙ ap (λ k. get_elem? r.snapshot (k % length r.snapshot)) (omega arith))
  serve_cyclic r (suc n) (suc i) lt left small =
      let (v, taken, at, m) = acquire_next r left in
      let after = record r { next = (r.next + 1) % word } in
      let rest = serve_cyclic after n i (omega (arith, lt)) left (omega (arith, small)) in
      rw (taken, serve)
        (rest ∙ ap (λ k. get_elem? r.snapshot (k % length r.snapshot)) (omega (arith, small)))
