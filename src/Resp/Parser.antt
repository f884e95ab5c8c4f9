-- ===== src/Resp/Parser.antt =====
-- `RespCommandParser` of resp.cpp. A string view that is cut from the front is the list of the
-- bytes left; `none` is std::nullopt, an incomplete request. After a nullopt no caller reads the
-- view again, so a failed call returns no view.
pub mod Interface
pub mod Argument
pub mod Sound
pub mod Complete
pub mod Total
pub mod Loop
pub mod Stream
pub mod Prefix
pub mod Front
pub mod Overflow
pub mod Tame
use vector_engine.Common.{
  ℕ, zero, suc, ◌+◌, ◌-◌, ◌%◌, ◌^◌, ◌&&◌, List, [], ◌∷◌, ◌++◌, Option, none, some, Bytes, length,
  take, drop, ltb, ◌==◌, if◌then◌else◌,
}
use vector_engine.Errors.{
  Outcome, ok, throws, undefined, diverges, engine, standard, ◌>>=◌, ◌>>?◌, or_break,
}
use vector_engine.Decimal.{size_mod, FromChars, parsed, from_chars}
use vector_engine.Resp.Command.{
  RespCommand, cr, lf, star, dollar, expect_char, expect_integer, expect_crlf, zero_argument,
}

-- The end of `_parse_num`, at `ptr`.
pub end_of_num : ℕ → Bytes → Outcome (Option (ℕ × Bytes))
end_of_num n [] = ok none
end_of_num n (a ∷ []) = ok none
end_of_num n (a ∷ b ∷ rest) =
    if a == cr && b == lf then ok (some (n, rest)) else throws (engine expect_crlf)

pub check_num : FromChars → Outcome (Option (ℕ × Bytes))
check_num (parsed n rest) = end_of_num n rest
check_num _ = throws (engine expect_integer)

-- `_parse_num` behind its first `remove_prefix`.
pub after_mark : Bytes → Outcome (Option (ℕ × Bytes))
after_mark [] = ok none
after_mark (d ∷ s) = check_num (from_chars (d ∷ s))

unfoldable pub parse_num : ℕ → Bytes → Outcome (Option (ℕ × Bytes))
unfolding after_mark check_num end_of_num
parse_num c [] = ok none
parse_num c (x ∷ s) = if x == c then after_mark s else throws (engine (expect_char c))

-- `_parse_argc`.
abbrev pub parse_argc : Bytes → Outcome (Option (ℕ × Bytes))
parse_argc buffer = parse_num star buffer

-- The end of `_parse_argv`: the two reads at `last` and what follows them.
pub end_of_argv : Bytes → Bytes → Outcome (Option (Bytes × Bytes))
end_of_argv argv [] = undefined
end_of_argv argv (a ∷ []) = if a == cr then undefined else throws (engine expect_crlf)
end_of_argv argv (a ∷ b ∷ rest) =
    if a == cr && b == lf then ok (some (argv, rest)) else throws (engine expect_crlf)

-- `len + 2` is a std::size_t, and wraps.
pub read_argv : ℕ × Bytes → Outcome (Option (Bytes × Bytes))
read_argv (len, buffer) =
    if ltb (length buffer) ((len + 2) % size_mod)
    then ok none
    else end_of_argv (take len buffer) (drop len buffer)

unfoldable pub parse_argv : Bytes → Outcome (Option (Bytes × Bytes))
unfolding read_argv end_of_argv
parse_argv buffer = parse_num dollar buffer >>? read_argv

-- The variables of the loop over the arguments; `idx` is an unsigned int of 32 bits.
pub record Args : Type 0 where
  pub idx : ℕ
  pub args : List Bytes
  pub buffer : Bytes

-- The end of a round: `push_back` and `++idx`.
pub push_arg : Args → Bytes × Bytes → Args
push_arg a (s, buffer) = record {
  idx = (a.idx + 1) % 2 ^ 32;
  args = a.args ++ s ∷ [];
  buffer = buffer;
}

-- `n` is `*argc - 1`. The loop ends with `idx` at `n`, or breaks at an incomplete argument.
unfoldable pub parse_args : ℕ → ℕ → Args → Outcome Args
unfolding push_arg
parse_args zero n a = diverges
parse_args (suc fuel) n a =
    let rest = parse_argv a.buffer >>= or_break (ok a) (λ p. parse_args fuel n (push_arg a p)) in
    if a.idx == n then ok a else rest

pub finish_command : ℕ → Bytes → Args → Option (RespCommand × Bytes)
finish_command n name a =
    if ltb a.idx n then none else some (record { name = name; args = a.args }, a.buffer)

-- `reserve_limit` is the greatest count that `args.reserve` grants; beyond it the call throws
-- std::length_error or std::bad_alloc.
module _ (reserve_limit : ℕ) where
  unfoldable pub read_args : ℕ → Bytes × Bytes → Outcome (Option (RespCommand × Bytes))
  read_args n (name, buffer) = if ltb reserve_limit n then throws standard else do
    a ← parse_args (suc (length buffer)) n (record { idx = 0; args = []; buffer = buffer })
    ok (finish_command n name a)

  unfoldable pub read_command : ℕ × Bytes → Outcome (Option (RespCommand × Bytes))
  unfolding read_args finish_command
  read_command (argc, buffer) =
      if argc == 0
      then throws (engine zero_argument)
      else parse_argv buffer >>? read_args (argc - 1)

  -- One round of the loop of `parse`, up to `push_back`.
  unfoldable pub parse_command : Bytes → Outcome (Option (RespCommand × Bytes))
  unfolding read_command
  parse_command buffer = parse_argc buffer >>? read_command

  -- The loop of `parse` over a text of `size` bytes; `buffer.data() - first` is the number of
  -- bytes cut off.
  unfoldable pub parse_loop : ℕ → ℕ → Bytes → List RespCommand → ℕ → Outcome (List RespCommand × ℕ)
  parse_loop zero size buffer cmds bytes_parsed = diverges
  parse_loop (suc fuel) size buffer cmds bytes_parsed =
      parse_command buffer
      >>= or_break (ok (cmds, bytes_parsed))
          λ (c, rest). parse_loop fuel size rest (cmds ++ c ∷ []) (size - length rest)

  unfoldable pub parse : Bytes → Outcome (List RespCommand × ℕ)
  unfolding parse_loop
  parse buffer = parse_loop (suc (length buffer)) (length buffer) buffer [] 0
