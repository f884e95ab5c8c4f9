-- ===== src/Decimal/Numeral.antt =====
-- What a decimal numeral is, for the numbers that resp.cpp reads with std::from_chars.
use mathlib.Core.List.{foldl, cons-ne-nil}
use vector_engine.Common.{
  ℕ, ◌+◌, ◌-◌, ◌*◌, ◌≤◌, ◌<◌, ◌≡◌, ◌≢◌, refl, ap, ◌∙◌, [], ◌∷◌, ◌++◌, arith, Bytes, All, Bool-cases,
  inl, inr, true, false,
}
use vector_engine.Decimal.{size_mod, is_digit, read_digits, fit, parsed, from_chars}

-- The number that digits spell behind `n`, with no bound.
abbrev pub value : ℕ → Bytes → ℕ
value = foldl (λ n c. n * 10 + (c - b'0'))

abbrev pub IsDigit : ℕ → Type 0
IsDigit c = (b'0' ≤ c) × (c ≤ b'9')

-- One or more digits that spell `n`, a number of 64 bits; leading zeros are allowed.
pub record IsNumeral (n : ℕ) (ds : Bytes) : Type 0 where
  pub some_digit : ds ≢ []
  pub digits : All IsDigit ds
  pub spells : value 0 ds ≡ n
  pub fits : n < size_mod

-- The text does not begin with a digit.
abbrev pub Stops : Bytes → Type 0
Stops [] = Unit
Stops (c ∷ s) = is_digit c ≡ false

read_digits-append :
    (n : ℕ) (ds rest : Bytes)
    → All IsDigit ds
    → Stops rest
    → read_digits n (ds ++ rest) ≡ (value n ds, rest)
unfolding read_digits
read_digits-append n [] [] h stop = refl
read_digits-append n [] (c ∷ rest) h stop = rw stop
read_digits-append n (d ∷ ds) rest h stop =
    ground (arith, read_digits-append (n * 10 + (d - b'0')) ds rest)

-- A numeral in front of a text that does not begin with a digit is read whole.
pub from_chars-append :
    {n : ℕ} (ds rest : Bytes)
    → IsNumeral n ds
    → Stops rest
    → from_chars (ds ++ rest) ≡ parsed n rest
unfolding from_chars
from_chars-append [] rest num stop = absurd (num.some_digit refl)
from_chars-append {n} (d ∷ ds) rest num stop =
    ground (arith, read_digits-append 0 (d ∷ ds) rest num.digits stop)

-- The split of a text at its first byte that is no digit.
pub record Run (n : ℕ) (s : Bytes) (m : ℕ) (rest : Bytes) : Type 0 where
  pub ds : Bytes
  pub digits : All IsDigit ds
  pub whole : s ≡ ds ++ rest
  pub spells : value n ds ≡ m

pub read_digits-Run : (n : ℕ) (s : Bytes) → Run n s (read_digits n s).0 (read_digits n s).1
unfolding read_digits
read_digits-Run n [] = record { ds = []; digits = tt; whole = refl; spells = refl }
read_digits-Run n (c ∷ s) = elim (Bool-cases (is_digit c)) [
  | inl digit ↦ rw digit (longer (read_digits-Run (n * 10 + (c - b'0')) s) digit)
  | inr other ↦ rw other (record { ds = []; digits = tt; whole = refl; spells = refl })
]
  where
    longer :
        {m : ℕ} {rest : Bytes}
        → Run (n * 10 + (c - b'0')) s m rest
        → is_digit c ≡ true
        → Run n (c ∷ s) m rest
    longer r digit = record {
      ds = c ∷ r.ds;
      digits = (ground arith, r.digits);
      whole = rw (← r.whole);
      spells = r.spells;
    }

fit-eq-parsed :
    (p : ℕ × Bytes) {n : ℕ} {rest : Bytes}
    → fit p ≡ parsed n rest
    → (p.0 ≡ n) × (p.1 ≡ rest) × (n < size_mod)
unfolding fit
fit-eq-parsed (m, r) h = (ground arith, ground arith, ground arith)

-- What `from_chars` reads is a numeral of the value that it returns.
pub from_chars_sound :
    (s : Bytes) {n : ℕ} {rest : Bytes}
    → from_chars s ≡ parsed n rest
    → (ds : Bytes) × IsNumeral n ds × (s ≡ ds ++ rest)
unfolding from_chars
from_chars_sound [] h = cc
from_chars_sound (c ∷ s) {n} {rest} h = elim (Bool-cases (is_digit c)) [
  | inl digit ↦
      let r = read_digits-Run (0 * 10 + (c - b'0')) s in
      let (e, e', lt) = fit-eq-parsed (read_digits (0 * 10 + (c - b'0')) s) (rw digit at h) in
      (
        c ∷ r.ds,
        record {
          some_digit = cons-ne-nil c r.ds;
          digits = (ground arith, r.digits);
          spells = r.spells ∙ e;
          fits = lt;
        },
        ap (◌∷◌ c) (rw e' at r.whole),
      )
  | inr other ↦ absurd (ground arith)
]
