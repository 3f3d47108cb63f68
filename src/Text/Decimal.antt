-- ===== src/Text/Decimal.antt =====
-- The decimal print of a number is read back, so two numbers never print alike.
use iql.Base.{
  ℕ, zero, suc, ◌+◌, ◌-◌, ◌*◌, ◌/◌, ◌%◌, ◌<◌, ◌≡◌, refl, ap, sym, ◌∙◌, [], ◌∷◌, ◌++◌, arith, ltb,
  inl, inr, Bool-cases,
}
use iql.Text.{Text, decimal, decimal_fuel}

-- The number that a text of digits stands for, after the digits `acc`.
read_from : ℕ → Text → ℕ
read_from acc [] = acc
read_from acc (c ∷ s) = read_from (acc * 10 + (c - 48)) s

read_from-append : (acc : ℕ) (s t : Text) → read_from acc (s ++ t) ≡ read_from (read_from acc s) t
unfolding read_from
read_from-append acc [] t = refl
read_from-append acc (c ∷ s) t = read_from-append (acc * 10 + (c - 48)) s t

read_from-decimal_fuel : (f n : ℕ) → n < f → read_from 0 (decimal_fuel f n) ≡ n
unfolding read_from decimal_fuel
read_from-decimal_fuel zero n h = absurd (omega arith)
read_from-decimal_fuel (suc f) n h = elim (Bool-cases (ltb n 10)) [
  | inl e ↦ rw e (omega arith)
  | inr e ↦
      rw (e, read_from-append 0 (decimal_fuel f (n / 10)) ((48 + n % 10) ∷ []))
        (rw (read_from-decimal_fuel f (n / 10) (ground arith)) (omega arith))
]

pub decimal_injective : (m n : ℕ) → decimal m ≡ decimal n → m ≡ n
unfolding decimal
decimal_injective m n h =
    sym (read_from-decimal_fuel (suc m) m (omega arith))
    ∙ ap (read_from 0) h
    ∙ read_from-decimal_fuel (suc n) n (omega arith)
