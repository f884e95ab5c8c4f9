-- ===== src/Resp/Parser/Overflow.antt =====
-- `_parse_argv` of resp.cpp at a declared length near 2^64, where `len + 2` wraps.
use vector_engine.Common.{
  ℕ, ◌+◌, ◌%◌, ◌≤◌, ◌<◌, ◌≡◌, ◌≢◌, [], ◌∷◌, ◌++◌, arith, Bytes, length, drop, take, drop_past,
  length-drop, ltb, ltb-false, ==_false, Bool-cases, inl, inr,
}
use vector_engine.Errors.{undefined, >>?-eq-undefined}
use vector_engine.Decimal.{size_mod}
use vector_engine.Resp.Command.{star, dollar}
use vector_engine.Resp.Format.{IsHeader}
use vector_engine.Resp.Parser.{parse_num, end_of_argv, read_argv, parse_argv, parse_command, parse}
use vector_engine.Resp.Parser.Complete.{parse_num-append}
use vector_engine.Resp.Parser.Argument.{parse_num_sound}
use vector_engine.Resp.Parser.Total.{parse_num-IsTame}
use vector_engine.Resp.Parser.Stream.{parse_undefined}

read_argv_overflow :
    (len : ℕ) (rest : Bytes)
    → len < size_mod
    → size_mod ≤ len + 2
    → len + 2 ≤ size_mod + length rest
    → length rest ≤ len
    → read_argv (len, rest) ≡ undefined
unfolding read_argv end_of_argv
read_argv_overflow len rest small wraps enough short =
    rw (ltb-false (length rest) ((len + 2) % size_mod) (omega arith), drop_past len rest short)

-- A length of 2^64 - 2 or 2^64 - 1, with a byte or two behind it, makes `_parse_argv` read out of
-- bounds.
pub parse_argv_overflow :
    (len : ℕ) (p rest : Bytes)
    → IsHeader dollar len p
    → size_mod ≤ len + 2
    → len + 2 ≤ size_mod + length rest
    → length rest ≤ len
    → parse_argv (p ++ rest) ≡ undefined
unfolding parse_argv
parse_argv_overflow len p rest head wraps enough short =
    rw (parse_num-append p rest head)
      (read_argv_overflow len rest head.numeral.fits wraps enough short)

-- A request whose first argument declares a length of 2^64 - 2 or 2^64 - 1, with so few bytes
-- behind it that the sum with 2 wraps below their number and they end before the length, makes
-- `parse` read out of bounds.
pub parse_overflow :
    (reserve_limit argc len : ℕ) (h p rest : Bytes)
    → IsHeader star argc h
    → argc ≢ 0
    → IsHeader dollar len p
    → size_mod ≤ len + 2
    → len + 2 ≤ size_mod + length rest
    → length rest ≤ len
    → parse reserve_limit (h ++ (p ++ rest)) ≡ undefined
unfolding parse_command
parse_overflow reserve_limit argc len h p rest counted nonzero head wraps enough short =
    parse_undefined reserve_limit (h ++ (p ++ rest)) (
      rw (
        parse_num-append h (p ++ rest) counted,
        ==_false argc 0 nonzero,
        parse_argv_overflow len p rest head wraps enough short,
      ))

end_of_argv-undefined : (s t : Bytes) → end_of_argv s t ≡ undefined → length t ≤ 1
unfolding end_of_argv
end_of_argv-undefined s [] h = omega arith
end_of_argv-undefined s (a ∷ []) h = omega arith
end_of_argv-undefined s (a ∷ b ∷ t) h = absurd (ground arith)

read_argv-undefined :
    (len : ℕ) (rest : Bytes)
    → len < size_mod
    → read_argv (len, rest) ≡ undefined
    → (size_mod ≤ len + 2) × (length rest ≤ len + 1)
unfolding read_argv
read_argv-undefined len rest small h =
    elim (Bool-cases (ltb (length rest) ((len + 2) % size_mod))) [
      | inl short ↦ absurd (ground arith)
      | inr enough ↦
          let past = end_of_argv-undefined (take len rest) (drop len rest) (rw enough at h) in
          let fits : (len + 2) % size_mod ≤ length rest = ground arith in
          (omega (arith, length-drop len rest), omega (arith, length-drop len rest))
    ]

-- `_parse_argv` reads out of bounds only when the declared length is 2^64 - 2 or 2^64 - 1 and the
-- text behind the header is at most one byte longer than that length.
pub parse_argv-undefined :
    (buffer : Bytes)
    → parse_argv buffer ≡ undefined
    → (len : ℕ) × (p : Bytes) × (rest : Bytes) × IsHeader dollar len p
      × (buffer ≡ p ++ rest)
      × (size_mod ≤ len + 2)
      × (length rest ≤ len + 1)
unfolding parse_argv
parse_argv-undefined buffer h =
    let ((len, rest), e, k) =
      >>?-eq-undefined (parse_num dollar buffer) read_argv (parse_num-IsTame dollar buffer) h in
    let (p, head, cut) = parse_num_sound dollar buffer e in
    let (wraps, short) = read_argv-undefined len rest head.numeral.fits k in
    (len, p, rest, head, cut, wraps, short)
