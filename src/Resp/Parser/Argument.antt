-- ===== src/Resp/Parser/Argument.antt =====
-- `_parse_num` and `_parse_argv` of resp.cpp on texts that they accept.
use vector_engine.Common.{
  ℕ, ◌+◌, ◌%◌, ◌≡◌, refl, ap, sym, subst, ◌∙◌, inl, inr, [], ◌∷◌, ◌++◌, append_assoc, some, arith,
  Bytes, length, take, drop, take-append-drop, length-take_of_drop, ◌==◌, ltb, Bool-cases, ==_iff,
}
use vector_engine.Errors.{ok, >>?-eq-some}
use vector_engine.Decimal.{
  size_mod, from_chars, FromChars, parsed, invalid_argument, result_out_of_range,
}
use vector_engine.Decimal.Numeral.{from_chars_sound}
use vector_engine.Resp.Command.{crlf, dollar}
use vector_engine.Resp.Format.{IsHeader, IsBulk}
use vector_engine.Resp.Parser.{
  end_of_num, check_num, after_mark, parse_num, end_of_argv, read_argv, parse_argv,
}

end_of_num_sound :
    (n : ℕ) (s : Bytes) {m : ℕ} {rest : Bytes}
    → end_of_num n s ≡ ok (some (m, rest))
    → (n ≡ m) × (s ≡ crlf ++ rest)
unfolding end_of_num
end_of_num_sound n [] h = cc
end_of_num_sound n (a ∷ []) h = cc
end_of_num_sound n (a ∷ b ∷ rest) h = (ground arith, ground arith)

check_num_sound :
    (r : FromChars) {n : ℕ} {rest : Bytes}
    → check_num r ≡ ok (some (n, rest))
    → r ≡ parsed n (crlf ++ rest)
unfolding check_num
check_num_sound (parsed m s) h = let (e, e') = end_of_num_sound m s h in cc
check_num_sound invalid_argument h = cc
check_num_sound result_out_of_range h = cc

after_mark_sound :
    (c : ℕ) (s : Bytes) {n : ℕ} {rest : Bytes}
    → after_mark s ≡ ok (some (n, rest))
    → (p : Bytes) × IsHeader c n p × (c ∷ s ≡ p ++ rest)
unfolding after_mark
after_mark_sound c [] h = cc
after_mark_sound c (d ∷ s) {n} {rest} h =
    let (ds, num, e) = from_chars_sound (d ∷ s) (check_num_sound (from_chars (d ∷ s)) h) in
    (
      c ∷ ds ++ crlf,
      record { ds = ds; numeral = num; whole = refl },
      ap (◌∷◌ c) (e ∙ sym (append_assoc ds crlf rest)),
    )

-- A number that `_parse_num` returns stands in a header at the front of the text.
pub parse_num_sound :
    (c : ℕ) (s : Bytes) {n : ℕ} {rest : Bytes}
    → parse_num c s ≡ ok (some (n, rest))
    → (p : Bytes) × IsHeader c n p × (s ≡ p ++ rest)
unfolding parse_num
parse_num_sound c [] h = cc
parse_num_sound c (x ∷ s) {n} {rest} h = elim (Bool-cases (x == c)) [
  | inl hit ↦
      let (p, head, e) = after_mark_sound c s (rw hit at h) in
      (p, head, ap (λ (y : ℕ). y ∷ s) ((==_iff x c).0 hit) ∙ e)
  | inr miss ↦ absurd (ground arith)
]

end_of_argv_sound :
    (s t : Bytes) {r rest : Bytes}
    → end_of_argv s t ≡ ok (some (r, rest))
    → (s ≡ r) × (t ≡ crlf ++ rest)
unfolding end_of_argv
end_of_argv_sound s [] h = cc
end_of_argv_sound s (a ∷ []) h = absurd (ground arith)
end_of_argv_sound s (a ∷ b ∷ rest) h = (ground arith, ground arith)

read_argv_sound :
    (len : ℕ) (buffer : Bytes) {s rest : Bytes}
    → read_argv (len, buffer) ≡ ok (some (s, rest))
    → (length s ≡ len) × (buffer ≡ s ++ (crlf ++ rest))
unfolding read_argv
read_argv_sound len buffer {s} {rest} h =
    elim (Bool-cases (ltb (length buffer) ((len + 2) % size_mod))) [
      | inl short ↦ absurd (ground arith)
      | inr enough ↦
          let (e, e') = end_of_argv_sound (take len buffer) (drop len buffer) (rw enough at h) in
          (
            rw (← e) (length-take_of_drop len buffer e'),
            rw (← e, ← e') (sym (take-append-drop len buffer)),
          )
    ]

-- An argument that `_parse_argv` returns stands in a bulk string at the front of the text.
pub parse_argv_sound :
    (buffer : Bytes) {s rest : Bytes}
    → parse_argv buffer ≡ ok (some (s, rest))
    → (p : Bytes) × IsBulk s p × (buffer ≡ p ++ rest)
unfolding parse_argv
parse_argv_sound buffer {s} {rest} h =
    let ((len, t), e, k) = >>?-eq-some (parse_num dollar buffer) read_argv h in
    let (p, head, whole) = parse_num_sound dollar buffer e in
    let (sized, cut) = read_argv_sound len t k in
    (
      p ++ (s ++ crlf),
      record {
        header = p;
        sized = subst (λ m. IsHeader dollar m p) (sym sized) head;
        whole = refl;
      },
      rw (whole, cut) (simp append_assoc),
    )
