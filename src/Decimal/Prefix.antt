-- ===== src/Decimal/Prefix.antt =====
-- The front of a decimal numeral, as resp.cpp reads it while the rest has not arrived.
use mathlib.Core.List.{foldl-append}
use vector_engine.Common.{ℕ, ◌+◌, ◌-◌, ◌*◌, ◌≤◌, ◌≢◌, refl, [], ◌∷◌, ◌++◌, arith, Bytes, All}
use vector_engine.Decimal.Numeral.{value, IsDigit, IsNumeral}

value-le : (n : ℕ) (ds : Bytes) → n ≤ value n ds
value-le n [] = omega arith
value-le n (d ∷ ds) = omega (arith, value-le (n * 10 + (d - b'0')) ds)

digits_front : (ds es : Bytes) → All IsDigit (ds ++ es) → All IsDigit ds
digits_front [] es h = tt
digits_front (d ∷ ds) es (digit, h) = (digit, digits_front ds es h)

-- The digits that have arrived are a numeral of a number that is no greater.
pub IsNumeral-front :
    {n : ℕ} (ds es : Bytes) → ds ≢ [] → IsNumeral n (ds ++ es) → IsNumeral (value 0 ds) ds
IsNumeral-front ds es some_digit num = record {
  some_digit = some_digit;
  digits = digits_front ds es num.digits;
  spells = refl;
  fits = omega (
    arith,
    value-le (value 0 ds) es,
    foldl-append (λ (n c : ℕ). n * 10 + (c - b'0')) 0 ds es,
    num.spells,
    num.fits,
  );
}
