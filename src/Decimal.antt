-- ===== src/Decimal.antt =====
-- Decimal numbers as `std::from_chars` reads them into a std::size_t (64 bits) and as
-- `std::to_string` writes them; resp.cpp and resp.h call both.
pub mod Numeral
pub mod Prefix
pub mod RoundTrip
use vector_engine.Common.{
  ℕ, zero, suc, ◌+◌, ◌-◌, ◌*◌, ◌/◌, ◌%◌, ◌^◌, ◌≡◌, refl, Bool, ◌&&◌, [], ◌∷◌, ◌++◌, Bytes, codes,
  ltb, leb, if◌then◌else◌,
}

abbrev pub size_mod : ℕ
size_mod = 2 ^ 64

abbrev pub is_digit : ℕ → Bool
is_digit c = leb b'0' c && leb c b'9'

-- The longest run of digits, as a number, and what follows it.
pub read_digits : ℕ → Bytes → ℕ × Bytes
read_digits n [] = (n, [])
read_digits n (c ∷ s) = if is_digit c then read_digits (n * 10 + (c - b'0')) s else (n, c ∷ s)

-- `errc()` with the value and the text behind it, or the error code.
pub data FromChars : Type 0 where
  parsed : ℕ → Bytes → FromChars
  invalid_argument result_out_of_range : FromChars

pub fit : ℕ × Bytes → FromChars
fit (n, rest) = if ltb n size_mod then parsed n rest else result_out_of_range

unfoldable pub from_chars : Bytes → FromChars
unfolding fit read_digits
from_chars [] = invalid_argument
from_chars (c ∷ s) = if is_digit c then fit (read_digits 0 (c ∷ s)) else invalid_argument

-- The first argument bounds the number of digits.
pub digits_of : ℕ → ℕ → Bytes
digits_of zero n = []
digits_of (suc fuel) n =
    let front = digits_of fuel (n / 10) in (if ltb n 10 then [] else front) ++ (b'0' + n % 10) ∷ []

unfoldable pub to_string : ℕ → Bytes
unfolding digits_of
to_string n = digits_of (suc n) n

to_string_runs : to_string 18446744073709551615 ≡ codes "18446744073709551615"
unfolding to_string
to_string_runs = refl

from_chars_overflow : from_chars (codes "18446744073709551616\r\n") ≡ result_out_of_range
unfolding from_chars
from_chars_overflow = refl

from_chars_stops : from_chars (codes "007\r\n") ≡ parsed 7 (codes "\r\n")
unfolding from_chars
from_chars_stops = refl
