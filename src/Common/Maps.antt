-- ===== src/Common/Maps.antt =====
-- Go maps with text keys, as association lists, and Go's word arithmetic.
use Prim.Native.Nat.{ℕ}
use Prim.Native.String.{String}
use text.Mathlib.Text.{◌==◌ as str_eq}
use text.Mathlib.TextEquality.{eq_iff}
use mathlib.Core.Path.{◌≡◌, refl, subst}
use mathlib.Core.Option.{Option, none, some, some-injective}
use mathlib.Core.List.{List, [], ◌∷◌}
use native.Mathlib.Omega.{arith}
use dev_gate.Common.Tests.{if◌then◌else◌, Bool-cases}
use dev_gate.Common.Lists.{All}
use mathlib.Core.Logic.{inl, inr}

-- The number of values of a `uint64`.
abbrev pub word : ℕ
word = 18446744073709551616

module _ {ℓ} {V : Type ℓ} where
  -- `m[key]`, with `none` for a missing key.
  unfoldable pub lookup : String → List (String × V) → Option V
  lookup key [] = none
  lookup key (entry ∷ m) = if str_eq entry.0 key then some entry.1 else lookup key m

  -- `m[key] = value`
  unfoldable pub insert : String → V → List (String × V) → List (String × V)
  insert key value [] = (key, value) ∷ []
  insert key value (entry ∷ m) =
      if str_eq entry.0 key then (key, value) ∷ m else entry ∷ insert key value m

  -- What is read after a write.
  pub lookup-insert :
      (written read : String) (value : V) (m : List (String × V))
      → lookup read (insert written value m)
        ≡ (if str_eq written read then some value else lookup read m)
  unfolding lookup insert
  lookup-insert written read value [] = refl
  lookup-insert written read value (entry ∷ m) = ground (
    arith,
    lookup-insert written read value m,
    eq_iff written read,
    eq_iff entry.0 written,
    eq_iff entry.0 read,
  )

  pub All-insert {κ} :
      (P : String × V → Type κ) (k : String) (v : V) (m : List (String × V))
      → P (k, v)
      → All P m
      → All P (insert k v m)
  unfolding insert
  All-insert P k v [] p a = (p, tt)
  All-insert P k v ((j, w) ∷ m) p a = elim (Bool-cases (str_eq j k)) [
    | inl e ↦ rw e (p, a.1)
    | inr e ↦ rw e (a.0, All-insert P k v m p a.1)
  ]

  -- A predicate on the values alone, at a value that the map holds.
  pub All-lookup {κ} :
      (P : V → Type κ) (k : String) (v : V) (m : List (String × V))
      → All (λ (e : String × V). P e.1) m
      → lookup k m ≡ some v
      → P v
  unfolding lookup
  All-lookup P k v [] a h = absurd (cc)
  All-lookup P k v ((j, w) ∷ m) a h = elim (Bool-cases (str_eq j k)) [
    | inl e ↦ subst P (some-injective w v (rw e at h)) a.0
    | inr e ↦ All-lookup P k v m a.1 (rw e at h)
  ]
