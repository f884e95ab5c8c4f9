-- ===== src/Decimal/RoundTrip.antt =====
-- `to_string` and the numerals, for the replies of resp.cpp.
use vector_engine.Common.{
  ℕ, zero, suc, ◌+◌, ◌/◌, ◌%◌, ◌<◌, ◌≡◌, [], ◌∷◌, arith, All, All-append, Bool-cases, inl, inr, ltb,
}
use mathlib.Core.List.{foldl-append, concat-ne-nil}
use vector_engine.Decimal.{size_mod, digits_of, to_string}
use vector_engine.Decimal.Numeral.{IsDigit, value, IsNumeral}

value-digits_of : (fuel n : ℕ) → n < fuel → value 0 (digits_of fuel n) ≡ n
unfolding digits_of
value-digits_of zero n h = absurd (omega arith)
value-digits_of (suc fuel) n h = elim (Bool-cases (ltb n 10)) [
  | inl small ↦ rw small (ground arith)
  | inr large ↦ rw (large, foldl-append) (ground (arith, value-digits_of fuel (n / 10)))
]

digits_of-IsDigit : (fuel n : ℕ) → All IsDigit (digits_of fuel n)
unfolding digits_of
digits_of-IsDigit zero n = tt
digits_of-IsDigit (suc fuel) n =
    All-append IsDigit _ ((b'0' + n % 10) ∷ []) (ground (arith, digits_of-IsDigit fuel (n / 10)))
      (omega arith)

-- `to_string` writes a numeral of its argument.
pub to_string-IsNumeral : (n : ℕ) → n < size_mod → IsNumeral n (to_string n)
unfolding to_string
to_string-IsNumeral n h = record {
  some_digit = concat-ne-nil _ _;
  digits = digits_of-IsDigit (suc n) n;
  spells = value-digits_of (suc n) n (omega arith);
  fits = h;
}
