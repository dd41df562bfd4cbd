-- ===== src/Postgresql/StandbyNames/Digits.antt =====
-- The decimal digits that `'{0}'.format(n)` writes, and `int` of them.
use otus_hightload.Prelude.{
  ℕ, zero, suc, ◌+◌, ◌/◌, ◌%◌, ◌<◌, true, [], ◌∷◌, ◌≡◌, refl, arith, all, ◌==◌, Bool-cases, inl,
  inr,
}
use otus_hightload.Prelude.Int.{pos}
use otus_hightload.Prelude.Text.{Text}
use otus_hightload.Py.{print_nat, print_int}
use otus_hightload.Postgresql.NameTokens.{is_digit}
use otus_hightload.Postgresql.StandbyNames.{digits_value}

value-print_nat :
    (fuel n : ℕ) (acc : Text)
    → n < fuel
    → digits_value 0 (print_nat fuel n acc) ≡ digits_value n acc
unfolding print_nat digits_value
value-print_nat zero n acc h = absurd (omega arith)
value-print_nat (suc fuel) n acc h =
    let ih = value-print_nat fuel (n / 10) ((48 + n % 10) ∷ acc) in ground (arith, ih)

-- A printed number is read back.
pub value-print_int : (n : ℕ) → digits_value 0 (print_int (pos n)) ≡ n
unfolding print_int digits_value
value-print_int n = value-print_nat (suc n) n [] (omega arith)

digits_shape :
    (fuel n : ℕ) (acc : Text)
    → n < fuel
    → all is_digit acc ≡ true
    → (c : ℕ) × (s : Text) × (print_nat fuel n acc ≡ c ∷ s)
      × (is_digit c ≡ true)
      × (all is_digit s ≡ true)
unfolding print_nat all
digits_shape zero n acc h d = absurd (omega arith)
digits_shape (suc fuel) n acc h d =
    let digit : is_digit (48 + n % 10) ≡ true = ground arith in
    elim (Bool-cases (n / 10 == 0)) [
      | inl e ↦ (48 + n % 10, acc, rw e refl, digit, d)
      | inr e ↦
          let (c, s, eq, hc, hs) =
            digits_shape fuel (n / 10) ((48 + n % 10) ∷ acc) (ground arith) (ground arith) in
          (c, s, rw e eq, hc, hs)
    ]

pub print_int-digits :
    (n : ℕ)
    → (c : ℕ) × (s : Text) × (print_int (pos n) ≡ c ∷ s)
      × (is_digit c ≡ true)
      × (all is_digit s ≡ true)
unfolding print_int
print_int-digits n = digits_shape (suc n) n [] (omega arith) (unfold all in refl)
