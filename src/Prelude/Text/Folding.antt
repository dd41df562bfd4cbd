-- ===== src/Prelude/Text/Folding.antt =====
-- Folding the case of a text commutes with splitting and stripping it.
use Prim.Native.Nat.{ℕ}
use mathlib.Core.Path.{◌≡◌, refl, sym, ap, ◌∙◌}
use mathlib.Core.Logic.{◌≢◌}
use mathlib.Core.List.{List, [], ◌∷◌, ◌++◌, map, reverse, reverse-append, map-append}
use native.Mathlib.Omega.{arith}
use otus_hightload.Prelude.Tests.{◌==◌}
use otus_hightload.Prelude.Text.{
  Text, lower, lower_code, is_space, lstrip, strip, split, push_code, non_empty,
}

lower_code-comma : (c : ℕ) → (lower_code c == b',') ≡ (c == b',')
unfolding lower_code
lower_code-comma c = ground arith

is_space-lower_code : (c : ℕ) → is_space (lower_code c) ≡ is_space c
unfolding is_space lower_code
is_space-lower_code c = ground arith

lower-push_code :
    (c : ℕ) (pieces : List Text)
    → push_code (lower_code c) (map lower pieces) ≡ map lower (push_code c pieces)
unfolding push_code lower
lower-push_code c [] = refl
lower-push_code c (p ∷ rest) = refl

pub split-lower : (s : Text) → split b',' (lower s) ≡ map lower (split b',' s)
unfolding split lower
split-lower [] = refl
split-lower (c ∷ s) =
    let ih = split-lower s in
    let pushed = lower-push_code c (split b',' s) in ground (arith, ih, pushed, lower_code-comma c)

lstrip-lower : (s : Text) → lstrip (lower s) ≡ lower (lstrip s)
unfolding lstrip lower
lstrip-lower [] = refl
lstrip-lower (c ∷ s) = let ih = lstrip-lower s in ground (arith, ih, is_space-lower_code c)

reverse-lower : (s : Text) → reverse (lower s) ≡ lower (reverse s)
unfolding lower
reverse-lower [] = refl
reverse-lower (c ∷ s) =
    reverse-append (lower_code c ∷ []) (map lower_code s)
    ∙ ap (λ t. t ++ lower_code c ∷ []) (reverse-lower s)
    ∙ sym (map-append lower_code (reverse s) (c ∷ []))
    ∙ ap (map lower_code) (sym (reverse-append (c ∷ []) s))

pub strip-lower : (s : Text) → strip (lower s) ≡ lower (strip s)
unfolding strip
strip-lower s =
    ap (λ t. reverse (lstrip (reverse t))) (lstrip-lower s)
    ∙ ap (λ t. reverse (lstrip t)) (reverse-lower (lstrip s))
    ∙ ap reverse (lstrip-lower (reverse (lstrip s)))
    ∙ reverse-lower (lstrip (reverse (lstrip s)))

pub non_empty-lower : (s : Text) → non_empty (lower s) ≡ non_empty s
unfolding lower
non_empty-lower [] = refl
non_empty-lower (c ∷ s) = refl

pub lower-append : (s t : Text) → lower (s ++ t) ≡ lower s ++ lower t
unfolding lower
lower-append s t = map-append lower_code s t

push-append : (c : ℕ) (xs ys : List Text) → xs ≢ [] → push_code c (xs ++ ys) ≡ push_code c xs ++ ys
unfolding push_code
push-append c [] ys h = absurd (h refl)
push-append c (x ∷ xs) ys h = refl

push-ne-nil : (c : ℕ) (xs : List Text) → push_code c xs ≢ []
unfolding push_code
push-ne-nil c [] h = cc
push-ne-nil c (x ∷ xs) h = cc

split-ne-nil : (s : Text) → split b',' s ≢ []
unfolding split
split-ne-nil [] h = cc
split-ne-nil (c ∷ s) h = ground (arith, push-ne-nil c (split b',' s))

pub split-append : (s t : Text) → split b',' (s ++ b',' ∷ t) ≡ split b',' s ++ split b',' t
unfolding split
split-append [] t = refl
split-append (c ∷ s) t =
    let ih = split-append s t in
    ground (arith, ih, push-append c (split b',' s) (split b',' t) (split-ne-nil s))
