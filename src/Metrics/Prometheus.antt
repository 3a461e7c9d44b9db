-- ===== src/Metrics/Prometheus.antt =====
-- What internal/metrics uses of github.com/prometheus/client_golang: the vectors of counters, gauges
-- and histograms, and the registry. A vector's value at labels that were never written is 0.
use text.Mathlib.Text.{◌==◌ as str_eq}
use text.Mathlib.TextEquality.{eq_iff}
use dev_gate.Common.{
  ℕ, suc, ◌≤◌, ◌<◌, ◌≡◌, refl, ◌↔◌, Bool, true, false, not, ◌&&◌, ◌||◌, List, [], ◌∷◌, ◌++◌, some,
  Option, String, if◌then◌else◌, arith, leb, ◌==◌, map, Text, codes, is_empty, contains,
}

abbrev pub Labels : Type 0
Labels = List String

-- Whether two lists of label values are the same.
unfoldable pub labels_eq : Labels → Labels → Bool
labels_eq [] [] = true
labels_eq (a ∷ l) (b ∷ m) = str_eq a b && labels_eq l m
labels_eq _ _ = false

pub labels_eq_iff : (l m : Labels) → (labels_eq l m ≡ true) ↔ (l ≡ m)
unfolding labels_eq
labels_eq_iff [] [] = (λ _. refl, λ _. refl)
labels_eq_iff (a ∷ l) [] = (λ e. absurd (cc), λ e. absurd (cc))
labels_eq_iff [] (b ∷ m) = (λ e. absurd (cc), λ e. absurd (cc))
labels_eq_iff (a ∷ l) (b ∷ m) = ground (arith, labels_eq_iff l m, eq_iff a b)

-- Numbers up to this one are exact in a `float64`.
abbrev pub exact : ℕ
exact = 9007199254740992

-- The options of a collector, its label names with them.
pub record Opts : Type 0 where
  pub namespace : String
  pub subsystem : String
  pub name : String
  pub help : String
  pub labels : List String

-- Vectors whose state is a `V`, and what they promise while their values are exact. The value of a
-- histogram is the number of its observations.
pub record Vectors (V : Type 0) : Type 0 where
  pub fresh : Opts → V
  pub value : V → Labels → ℕ
  pub inc : V → Labels → V
  pub dec : V → Labels → V
  pub set : V → Labels → ℕ → V
  pub observe : V → Labels → ℕ → V
  pub value-fresh : (o : Opts) (l : Labels) → value (fresh o) l ≡ 0
  pub value-inc :
      (v : V) (l m : Labels)
      → value v l < exact
      → value (inc v l) m ≡ (if labels_eq l m then suc (value v m) else value v m)
  pub value-dec :
      (v : V) (l m : Labels) (n : ℕ)
      → value v l ≡ suc n
      → n < exact
      → value (dec v l) m ≡ (if labels_eq l m then n else value v m)
  pub value-set :
      (v : V) (l m : Labels) (n : ℕ)
      → n ≤ exact
      → value (set v l n) m ≡ (if labels_eq l m then n else value v m)
  pub value-observe :
      (v : V) (l m : Labels) (n : ℕ)
      → value v l < exact
      → value (observe v l n) m ≡ (if labels_eq l m then suc (value v m) else value v m)

abbrev is_lower : ℕ → Bool
is_lower a = leb 97 a && leb a 122

unfoldable pub is_letters : Text → Bool
is_letters [] = true
is_letters (a ∷ s) = is_lower a && is_letters s

-- A name of lower-case letters and underscores.
unfoldable pub is_word : Text → Bool
is_word [] = true
is_word (a ∷ s) = (is_lower a || a == 95) && is_word s

unfoldable pub are_labels : List Text → Bool
unfolding is_letters contains
are_labels [] = true
are_labels (s ∷ ss) = not (is_empty s) && is_letters s && not (contains ss s) && are_labels ss

-- Whether names are all new and differ from each other.
unfoldable pub are_new : List Text → List Text → Bool
unfolding contains
are_new old [] = true
are_new old (s ∷ ss) = not (contains old s) && not (contains ss s) && are_new old ss

-- Words in all parts of the name, and distinct label names.
unfoldable pub is_plain : Opts → Bool
unfolding is_word are_labels
is_plain o =
    not (is_empty (codes o.namespace))
    && not (is_empty (codes o.subsystem))
    && not (is_empty (codes o.name))
    && is_word (codes o.namespace)
    && is_word (codes o.subsystem)
    && is_word (codes o.name)
    && are_labels (map codes o.labels)

unfoldable pub all_plain : List Opts → Bool
unfolding is_plain
all_plain [] = true
all_plain (o ∷ os) = is_plain o && all_plain os

-- The name of a collector whose three parts are not empty.
abbrev pub full_name : Opts → Text
full_name o = codes o.namespace ++ (codes "_" ++ (codes o.subsystem ++ (codes "_" ++ codes o.name)))

-- Registries whose state is an `R`. MustRegister does not panic, which is `none`, on collectors with
-- plain names that are not registered yet.
pub record Registries (R : Type 0) : Type 0 where
  pub new_registry : R
  pub names : R → List Text
  pub must_register : R → List Opts → Option R
  pub names-new_registry : names new_registry ≡ []
  pub must_register_plain :
      (r : R) (os : List Opts)
      → all_plain os ≡ true
      → are_new (names r) (map full_name os) ≡ true
      → (r' : R) × (must_register r os ≡ some r') × (names r' ≡ names r ++ map full_name os)
