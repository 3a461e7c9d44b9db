-- ===== src/Upstream/Random.antt =====
-- internal/upstream/random.go. `intn s n` is `rand.IntN(n)` of math/rand/v2 in a state of its source.
use mathlib.Core.List.{Memᴰ}
use dev_gate.Common.{
  ℕ, suc, ◌<◌, ◌≡◌, refl, ap, List, [], ◌∷◌, Option, none, some, arith, length, get_elem?,
}
use dev_gate.Upstream.Picker.{ReplaceablePicker, get_elem?-Memᴰ}

-- The source of random numbers is a part of the state.
pub record Random (Url S : Type 0) : Type 0 where
  pub snapshot : List Url
  pub source : S

module _ {Url S : Type 0} where
  unfoldable pub replace : Random Url S → List Url → Option (Random Url S)
  replace r [] = none
  replace r (u ∷ us) = some (record r { snapshot = u ∷ us })

  unfoldable pub new : S → List Url → Option (Random Url S)
  unfolding replace
  new source us = replace (record { snapshot = []; source = source }) us

module _ {Url S : Type 0} (intn : S → ℕ → S × ℕ) where
  -- IntN panics at 0.
  unfoldable pub acquire : Random Url S → Option (Random Url S × Url × Unit {0})
  acquire r = elim r.snapshot [
    | [] ↦ none
    | u ∷ us ↦
        let (source, i) = intn r.source (suc (length us)) in
        elim (get_elem? (u ∷ us) i) [
          | none ↦ none
          | some v ↦ some (record r { source = source }, v, tt)
        ]
  ]

  -- What math/rand/v2 documents of IntN.
  module _ (below : (s : S) (n : ℕ) → (intn s (suc n)).1 < suc n) where
    abbrev pub Holds : Random Url S → List Url → Type 0
    Holds r us = (r.snapshot ≡ us) × (0 < length us)

    pub acquire-Holds :
        (r : Random Url S) (us : List Url)
        → Holds r us
        → (q : Random Url S) × (v : Url) × (w : Unit {0}) × (acquire r ≡ some (q, v, w))
          × Memᴰ v us
          × Holds q us
    unfolding acquire
    acquire-Holds r [] (e, left) = absurd (omega (arith, left))
    acquire-Holds r (u ∷ us) (e, left) =
        let (source, i) = intn r.source (suc (length us)) in
        let (v, at, m) = get_elem?-Memᴰ (u ∷ us) i (below r.source (length us)) in
        (
          record r { source = source },
          v,
          tt,
          rw (e, at, acquire)
              (ap (λ xs. some (record { snapshot = xs; source = source }, v, tt)) e),
          m,
          (e, left),
        )

    pub replace-Holds :
        (r : Random Url S) (u : Url) (us : List Url)
        → (q : Random Url S) × (replace r (u ∷ us) ≡ some q) × Holds q (u ∷ us)
    unfolding replace
    replace-Holds r u us = (record r { snapshot = u ∷ us }, refl, (refl, omega arith))

    abbrev pub picker : ReplaceablePicker Url (Unit {0}) (Random Url S)
    picker = record {
      acquire = acquire;
      replace = replace;
      Serves = Holds;
      replace_serves = replace-Holds;
      acquire_serves = acquire-Holds;
    }
