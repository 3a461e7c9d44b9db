-- ===== src/Common/Splits.antt =====
-- A joined text is split into its parts, with the rest of the separator in front of them.
use Prim.Native.Nat.{ℕ}
use mathlib.Core.Path.{◌≡◌, refl, ap, sym, ◌∙◌}
use mathlib.Core.List.{
  List, [], ◌∷◌, ◌++◌, map, reverse, reverse-cons, reverse-append, reverse-reverse, append-nil,
  append_assoc,
}
use dev_gate.Common.Lists.{All}
use dev_gate.Common.Texts.{Text, Lacks, codes, split_from, split, join}

-- A text that holds no separator is read into the part.
split_from-append :
    (sep : ℕ) (part p rest : Text)
    → Lacks sep p
    → split_from sep part (p ++ rest) ≡ split_from sep (reverse p ++ part) rest
unfolding split_from
split_from-append sep part [] rest h = refl
split_from-append sep part (b ∷ p) rest (h, hs) = rw h (
    split_from-append sep (b ∷ part) p rest hs
    ∙ ap (λ s. split_from sep s rest)
        (sym (ap (λ r. r ++ part) (reverse-cons b p) ∙ append_assoc (reverse p) (b ∷ []) part)))

reversed_part : (part t : Text) → reverse (reverse t ++ part) ≡ reverse part ++ t
reversed_part part t =
    reverse-append (reverse t) part ∙ ap (λ s. reverse part ++ s) (reverse-reverse t)

abbrev pub spaced : Text → Text
spaced t = b' ' ∷ t

split_from-join :
    (part t : Text) (ts : List Text)
    → All (Lacks b',') (t ∷ ts)
    → split_from b',' part (join (codes ", ") (t ∷ ts)) ≡ (reverse part ++ t) ∷ map spaced ts
unfolding split_from join
split_from-join part t [] (h, hs) =
    ap (split_from b',' part) (sym (append-nil t))
    ∙ split_from-append b',' part t [] h
    ∙ ap (λ s. s ∷ []) (reversed_part part t)
split_from-join part t (u ∷ ts) (h, hs) =
    split_from-append b',' part t (codes ", " ++ join (codes ", ") (u ∷ ts)) h
    ∙ rw (reversed_part part t, split_from-join (b' ' ∷ []) u ts hs) refl

pub split-join :
    (t : Text) (ts : List Text)
    → All (Lacks b',') (t ∷ ts)
    → split b',' (join (codes ", ") (t ∷ ts)) ≡ t ∷ map spaced ts
unfolding split
split-join t ts h = split_from-join [] t ts h
