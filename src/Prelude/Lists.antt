-- ===== src/Prelude/Lists.antt =====
-- Lists over the native numbers, with the Boolean tests that Python's `any`, `all` and
-- comprehensions make.
use Prim.Native.Nat.{ℕ, suc}
use mathlib.Core.Path.{◌≡◌, refl}
use mathlib.Core.Logic.{inl, inr}
use mathlib.Core.Bool.{Bool, true, false, ◌&&◌, ◌||◌}
use mathlib.Core.List.{List, [], ◌∷◌, Memᴰ}
use native.Mathlib.Omega.{arith}
use otus_hightload.Prelude.Tests.{Bool-cases, if◌then◌else◌}

module _ {ℓ} {A : Type ℓ} where
  abbrev pub length : List A → ℕ
  length [] = 0
  length (x ∷ xs) = suc (length xs)

  unfoldable pub any : (A → Bool) → List A → Bool
  any p [] = false
  any p (x ∷ xs) = p x || any p xs

  unfoldable pub all : (A → Bool) → List A → Bool
  all p [] = true
  all p (x ∷ xs) = p x && all p xs

  -- `[x for x in xs if p(x)]`
  unfoldable pub select : (A → Bool) → List A → List A
  select p [] = []
  select p (x ∷ xs) = let rest = select p xs in if p x then x ∷ rest else rest

module _ {ℓ} {A : Type ℓ} where
  pub all-mem : (p : A → Bool) (xs : List A) {a : A} → all p xs ≡ true → Memᴰ a xs → p a ≡ true
  unfolding all
  all-mem p [] h m = elim m [ ]
  all-mem p (x ∷ xs) h (Memᴰ.head e) = rw e (ground arith)
  all-mem p (x ∷ xs) h (Memᴰ.tail m) = all-mem p xs (ground arith) m

  pub all_of_mem :
      (p : A → Bool) (xs : List A) → ((a : A) → Memᴰ a xs → p a ≡ true) → all p xs ≡ true
  unfolding all
  all_of_mem p [] h = refl
  all_of_mem p (x ∷ xs) h =
      ground (arith, h x (Memᴰ.head refl), all_of_mem p xs (λ a m. h a (Memᴰ.tail m)))

  -- A failed `all` has a culprit.
  pub all-eq-false :
      (p : A → Bool) (xs : List A) → all p xs ≡ false → (a : A) × Memᴰ a xs × (p a ≡ false)
  unfolding all
  all-eq-false p [] h = absurd (ground arith)
  all-eq-false p (x ∷ xs) h = elim (Bool-cases (p x)) [
    | inl e ↦ let (a, m, q) = all-eq-false p xs (ground arith) in (a, Memᴰ.tail m, q)
    | inr e ↦ (x, Memᴰ.head refl, e)
  ]

  pub mem-select :
      (p : A → Bool) (xs : List A) {a : A} → Memᴰ a (select p xs) → Memᴰ a xs × (p a ≡ true)
  unfolding select
  mem-select p [] m = elim m [ ]
  mem-select p (x ∷ xs) {a} m = go (p x) refl m (mem-select p xs)
    where
      go :
          (b : Bool)
          → p x ≡ b
          → Memᴰ a (if b then x ∷ select p xs else select p xs)
          → (Memᴰ a (select p xs) → Memᴰ a xs × (p a ≡ true))
          → Memᴰ a (x ∷ xs) × (p a ≡ true)
      go true e (Memᴰ.head q) ih = (Memᴰ.head q, rw q e)
      go true e (Memᴰ.tail q) ih = (Memᴰ.tail (ih q).0, (ih q).1)
      go false e q ih = (Memᴰ.tail (ih q).0, (ih q).1)

  pub mem_of_select :
      (p : A → Bool) (xs : List A) {a : A} → Memᴰ a xs → p a ≡ true → Memᴰ a (select p xs)
  unfolding select
  mem_of_select p [] m e = elim m [ ]
  mem_of_select p (x ∷ xs) (Memᴰ.head q) e = rw (rw q at e) (Memᴰ.head q)
  mem_of_select p (x ∷ xs) {a} (Memᴰ.tail m) e = go (p x) (mem_of_select p xs m e)
    where
      go : (b : Bool) → Memᴰ a (select p xs) → Memᴰ a (if b then x ∷ select p xs else select p xs)
      go true m = Memᴰ.tail m
      go false m = m
