-- ===== src/Resp/Parser/Total.antt =====
-- The loops of `RespCommandParser` (resp.cpp): the bytes that each round takes.
use vector_engine.Common.{
  ℕ, zero, suc, ◌-◌, ◌<◌, ◌≡◌, ◌≢◌, ap, inl, inr, List, [], ◌∷◌, ◌++◌, Option, none, some, arith,
  Bytes, length, length-append, Bool-cases, ◌==◌, ltb, take, drop,
}
use vector_engine.Errors.{ok, diverges, IsTame, or_break, >>=-ne-diverges, >>?-ne-diverges}
use vector_engine.Decimal.{FromChars, from_chars, parsed, invalid_argument, result_out_of_range}
use vector_engine.Resp.Command.{RespCommand, crlf, star, dollar}
use vector_engine.Resp.Parser.{
  end_of_num, check_num, after_mark, parse_num, end_of_argv, read_argv, parse_argv, Args, push_arg,
  parse_args, read_args, read_command, parse_command, parse_loop, parse,
}
use vector_engine.Resp.Parser.Sound.{parse_command_sound}
use vector_engine.Resp.Parser.Argument.{parse_argv_sound}

end_of_num-IsTame : (n : ℕ) (s : Bytes) → IsTame (end_of_num n s)
unfolding end_of_num
end_of_num-IsTame n [] = tt
end_of_num-IsTame n (a ∷ []) = tt
end_of_num-IsTame n (a ∷ b ∷ s) = ground arith

check_num-IsTame : (r : FromChars) → IsTame (check_num r)
unfolding check_num
check_num-IsTame (parsed n s) = end_of_num-IsTame n s
check_num-IsTame invalid_argument = tt
check_num-IsTame result_out_of_range = tt

after_mark-IsTame : (s : Bytes) → IsTame (after_mark s)
unfolding after_mark
after_mark-IsTame [] = tt
after_mark-IsTame (d ∷ s) = check_num-IsTame (from_chars (d ∷ s))

-- `_parse_num` returns or throws an `Error` on every text: it never reads out of bounds.
pub parse_num-IsTame : (c : ℕ) (s : Bytes) → IsTame (parse_num c s)
unfolding parse_num
parse_num-IsTame c [] = tt
parse_num-IsTame c (x ∷ s) = elim (Bool-cases (x == c)) [
  | inl hit ↦ rw hit (after_mark-IsTame s)
  | inr miss ↦ rw miss tt
]

parse_num-ne-diverges : (c : ℕ) (s : Bytes) → parse_num c s ≢ diverges
parse_num-ne-diverges c s h = rw h at (parse_num-IsTame c s)

end_of_argv-ne-diverges : (s t : Bytes) → end_of_argv s t ≢ diverges
unfolding end_of_argv
end_of_argv-ne-diverges s [] h = cc
end_of_argv-ne-diverges s (a ∷ []) h = ground arith
end_of_argv-ne-diverges s (a ∷ b ∷ t) h = ground arith

read_argv-ne-diverges : (p : ℕ × Bytes) → read_argv p ≢ diverges
unfolding read_argv
read_argv-ne-diverges (len, buffer) h =
    ground (arith, end_of_argv-ne-diverges (take len buffer) (drop len buffer))

parse_argv-ne-diverges : (buffer : Bytes) → parse_argv buffer ≢ diverges
unfolding parse_argv
parse_argv-ne-diverges buffer =
    >>?-ne-diverges (parse_num dollar buffer) read_argv (parse_num-ne-diverges dollar buffer)
      (λ p _. read_argv-ne-diverges p)

-- An argument takes a byte at least.
pub parse_argv_shrinks :
    (buffer : Bytes) {s rest : Bytes}
    → parse_argv buffer ≡ ok (some (s, rest))
    → length rest < length buffer
parse_argv_shrinks buffer {s} {rest} h =
    let (p, bulk, cut) = parse_argv_sound buffer h in
    omega (
      arith,
      ap length cut,
      length-append p rest,
      ap length bulk.whole,
      length-append bulk.header (s ++ crlf),
      ap length bulk.sized.whole,
    )

next_arg-ne-diverges :
    (fuel n : ℕ) (a : Args)
    → length a.buffer < suc fuel
    → ((b : Args) → length b.buffer < fuel → parse_args fuel n b ≢ diverges)
    → (o : Option (Bytes × Bytes)) → parse_argv a.buffer ≡ ok o
    → or_break (ok a) (λ p. parse_args fuel n (push_arg a p)) o ≢ diverges
unfolding push_arg
next_arg-ne-diverges fuel n a enough ih none e = λ h. cc
next_arg-ne-diverges fuel n a enough ih (some (s, rest)) e =
    ih _ (omega (arith, parse_argv_shrinks a.buffer e))

-- Each round of the loop over the arguments takes a byte at least, so the loop ends.
parse_args-ne-diverges :
    (fuel n : ℕ) (a : Args) → length a.buffer < fuel → parse_args fuel n a ≢ diverges
unfolding parse_args
parse_args-ne-diverges zero n a enough = absurd (omega arith)
parse_args-ne-diverges (suc fuel) n a enough = elim (Bool-cases (a.idx == n)) [
  | inl done ↦ rw done (λ h. cc)
  | inr more ↦ rw more (
      >>=-ne-diverges (parse_argv a.buffer) _ (parse_argv-ne-diverges a.buffer)
        (next_arg-ne-diverges fuel n a enough (parse_args-ne-diverges fuel n)))
]

module _ (reserve_limit : ℕ) where
  read_args-ne-diverges : (n : ℕ) (p : Bytes × Bytes) → read_args reserve_limit n p ≢ diverges
  unfolding read_args
  read_args-ne-diverges n (name, buffer) = elim (Bool-cases (ltb reserve_limit n)) [
    | inl over ↦ rw over (λ h. cc)
    | inr within ↦ rw within (
        >>=-ne-diverges (parse_args (suc (length buffer)) n _) _
          (parse_args-ne-diverges (suc (length buffer)) n _ (omega arith)) (λ a _ h. cc))
  ]

  read_command-ne-diverges : (p : ℕ × Bytes) → read_command reserve_limit p ≢ diverges
  unfolding read_command
  read_command-ne-diverges (argc, buffer) = elim (Bool-cases (argc == 0)) [
    | inl no_args ↦ rw no_args (λ h. cc)
    | inr args ↦ rw args (
        >>?-ne-diverges (parse_argv buffer) (read_args reserve_limit (argc - 1))
          (parse_argv-ne-diverges buffer) (λ p _. read_args-ne-diverges (argc - 1) p))
  ]

  pub parse_command-ne-diverges : (buffer : Bytes) → parse_command reserve_limit buffer ≢ diverges
  unfolding parse_command
  parse_command-ne-diverges buffer =
      >>?-ne-diverges (parse_num star buffer) (read_command reserve_limit)
        (parse_num-ne-diverges star buffer) (λ p _. read_command-ne-diverges p)

  pub parse_command_shrinks :
      (buffer : Bytes) {c : RespCommand} {rest : Bytes}
      → parse_command reserve_limit buffer ≡ ok (some (c, rest))
      → length rest < length buffer
  parse_command_shrinks buffer {c} {rest} h =
      let (p, r, cut, _, _) = parse_command_sound reserve_limit buffer h in
      omega (
        arith,
        ap length cut,
        length-append p rest,
        ap length r.whole,
        length-append r.header r.body,
        ap length r.counted.whole,
      )

  next_command-ne-diverges :
      (fuel size : ℕ) (buffer : Bytes) (cmds : List RespCommand) (n : ℕ)
      → length buffer < suc fuel
      → ((rest : Bytes) (cs : List RespCommand) (m : ℕ)
          → length rest < fuel
          → parse_loop reserve_limit fuel size rest cs m ≢ diverges)
      → (o : Option (RespCommand × Bytes)) → parse_command reserve_limit buffer ≡ ok o
      → or_break
          (ok (cmds, n))
          (λ (c, rest).
            parse_loop reserve_limit fuel size rest (cmds ++ c ∷ []) (size - length rest))
          o
        ≢ diverges
  next_command-ne-diverges fuel size buffer cmds n enough ih none e = λ h. cc
  next_command-ne-diverges fuel size buffer cmds n enough ih (some (c, rest)) e =
      ih rest (cmds ++ c ∷ []) (size - length rest) (omega (arith, parse_command_shrinks buffer e))

  parse_loop-ne-diverges :
      (fuel size : ℕ) (buffer : Bytes) (cmds : List RespCommand) (n : ℕ)
      → length buffer < fuel
      → parse_loop reserve_limit fuel size buffer cmds n ≢ diverges
  unfolding parse_loop
  parse_loop-ne-diverges zero size buffer cmds n enough = absurd (omega arith)
  parse_loop-ne-diverges (suc fuel) size buffer cmds n enough =
      >>=-ne-diverges (parse_command reserve_limit buffer) _ (parse_command-ne-diverges buffer)
        (next_command-ne-diverges fuel size buffer cmds n enough (parse_loop-ne-diverges fuel size))

  -- `RespCommandParser::parse` ends on every text: it returns, throws or reads out of bounds.
  pub parse-ne-diverges : (buffer : Bytes) → parse reserve_limit buffer ≢ diverges
  unfolding parse
  parse-ne-diverges buffer =
      parse_loop-ne-diverges (suc (length buffer)) (length buffer) buffer [] 0 (omega arith)
