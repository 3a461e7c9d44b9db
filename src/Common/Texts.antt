-- ===== src/Common/Texts.antt =====
-- Go strings as the lists of their bytes, and what the program uses of the package `strings`.
use Prim.Native.Nat.{ℕ}
use Prim.Native.Char.{code}
use Prim.Native.String.{String}
use mathlib.Core.Path.{◌≡◌, refl}
use mathlib.Core.Logic.{◌↔◌}
use mathlib.Core.Bool.{Bool, true, false, ◌&&◌, ◌||◌}
use mathlib.Core.List.{List, [], ◌∷◌, ◌++◌, reverse}
use native.Mathlib.Omega.{arith}
use dev_gate.Common.Lists.{All}
use dev_gate.Common.Tests.{◌==◌, if◌then◌else◌}

abbrev pub Text : Type 0
Text = List ℕ

-- A literal.
abbrev pub codes : String → Text
codes String.[] = []
codes (String.◌∷◌ c s) = code c ∷ codes s

-- `s == ""`
abbrev pub is_empty : Text → Bool
is_empty [] = true
is_empty (a ∷ s) = false

unfoldable pub text_eq : Text → Text → Bool
text_eq [] [] = true
text_eq (a ∷ s) (b ∷ t) = a == b && text_eq s t
text_eq _ _ = false

pub text_eq_iff : (s t : Text) → (text_eq s t ≡ true) ↔ (s ≡ t)
unfolding text_eq
text_eq_iff [] [] = (λ _. refl, λ _. refl)
text_eq_iff (a ∷ s) [] = (λ e. absurd (cc), λ e. absurd (cc))
text_eq_iff [] (b ∷ t) = (λ e. absurd (cc), λ e. absurd (cc))
text_eq_iff (a ∷ s) (b ∷ t) = ground (arith, text_eq_iff s t)

-- strings.HasPrefix(s, p)
unfoldable pub has_prefix : Text → Text → Bool
has_prefix s [] = true
has_prefix [] (b ∷ p) = false
has_prefix (a ∷ s) (b ∷ p) = a == b && has_prefix s p

-- strings.HasSuffix(s, p)
unfoldable pub has_suffix : Text → Text → Bool
unfolding has_prefix
has_suffix s p = has_prefix (reverse s) (reverse p)

-- Whether a set that was filled from a list holds a text.
unfoldable pub contains : List Text → Text → Bool
unfolding text_eq
contains [] t = false
contains (s ∷ ss) t = text_eq s t || contains ss t

holds_byte : ℕ → Text → Bool
holds_byte a [] = false
holds_byte a (b ∷ s) = a == b || holds_byte a s

-- strings.ContainsAny(s, chars)
unfoldable pub contains_any : Text → Text → Bool
unfolding holds_byte
contains_any [] chars = false
contains_any (a ∷ s) chars = holds_byte a chars || contains_any s chars

-- strings.Split(s, sep) at one byte: the part read so far comes first.
unfoldable pub split_from : ℕ → Text → Text → List Text
split_from sep part [] = reverse part ∷ []
split_from sep part (a ∷ s) =
    let here = split_from sep [] s in
    let more = split_from sep (a ∷ part) s in if a == sep then reverse part ∷ here else more

unfoldable pub split : ℕ → Text → List Text
unfolding split_from
split sep s = split_from sep [] s

-- strings.Join(parts, sep)
unfoldable pub join : Text → List Text → Text
join sep [] = []
join sep (p ∷ []) = p
join sep (p ∷ q ∷ ps) = p ++ (sep ++ join sep (q ∷ ps))

-- A byte does not occur in a text.
abbrev pub Lacks : ℕ → Text → Type 0
Lacks c s = All (λ b. (b == c) ≡ false) s
