-- ===== src/Tests/Parser.antt =====
-- The parser and the reply builder, at a ping.
use mathlib.Core.List.{cons-ne-nil}
use vector_engine.Common.{
  ℕ, ◌≡◌, ◌≢◌, ◌⊎◌, refl, [], ◌∷◌, ◌++◌, none, Bytes, codes, length, arith, drop,
}
use vector_engine.Errors.{IsTame, ok, diverges, undefined, ◌>>=◌}
use vector_engine.Decimal.{from_chars, to_string}
use vector_engine.Resp.Command.{star, dollar}
use vector_engine.Resp.Parser.{parse_num, parse_argv, parse_args, parse_command, parse}
use vector_engine.Resp.Parser.Stream.{Parsed, parse-append, parse_sound, parse_chunks}
use vector_engine.Resp.Parser.Loop.{behind}
use vector_engine.Resp.Parser.Total.{parse-ne-diverges}
use vector_engine.Resp.Parser.Prefix.{parse_command_cut}
use vector_engine.Resp.Parser.Overflow.{parse_overflow}
use vector_engine.Resp.Parser.Tame.{HasTrap, parse_tame}
use vector_engine.Resp.Reply.Request.{append_commands, parse-append_commands}
use vector_engine.Tests.{header_text, header_text-IsHeader, ping, ping_text, ping_text-IsRequest}

abbrev half : Bytes
half = codes "*1\r\n$4\r\nPi"

abbrev whole_and_half : Bytes
whole_and_half = codes "*1\r\n$4\r\nPing\r\n*1\r\n$4"

parse_chunks_example :
    parse 100 (whole_and_half ++ codes "\r\nPing\r\n")
    ≡ (parse 100 (drop 14 whole_and_half ++ codes "\r\nPing\r\n") >>= behind (ping ∷ []) 14)
unfolding parse parse_command parse_num from_chars parse_argv parse_args
parse_chunks_example = parse_chunks 100 whole_and_half (codes "\r\nPing\r\n") refl

parse_sound_example : Parsed 100 whole_and_half (ping ∷ []) 14
unfolding parse parse_command parse_num from_chars parse_argv parse_args
parse_sound_example = parse_sound 100 whole_and_half refl

parse-append_example :
    parse 100 (ping_text ++ half) ≡ (parse 100 half >>= behind (ping ∷ []) (length ping_text))
unfolding to_string
parse-append_example =
    parse-append 100 (ping ∷ []) ping_text half (ping_text, [], ping_text-IsRequest, refl, refl)
      ((omega arith, omega arith), tt)

parse-ne-diverges_example : parse 100 whole_and_half ≢ diverges
parse-ne-diverges_example = parse-ne-diverges 100 whole_and_half

parse-append_commands_example :
    parse 100 (append_commands (ping ∷ []) [] ++ half)
    ≡ (parse 100 half >>= behind (ping ∷ []) (length (append_commands (ping ∷ []) [])))
parse-append_commands_example =
    parse-append_commands 100 (ping ∷ []) half ((omega arith, tt, omega arith), tt)
      ((omega arith, omega arith), tt)

abbrev huge : ℕ
huge = 18446744073709551614

parse_overflow_example :
    parse 100 (header_text star 1 ++ (header_text dollar huge ++ codes "ab")) ≡ undefined
parse_overflow_example =
    parse_overflow 100 1 huge (header_text star 1) (header_text dollar huge) (codes "ab")
      (header_text-IsHeader star 1 (omega arith)) (omega arith)
      (header_text-IsHeader dollar huge (omega arith)) (omega arith) (omega arith) (omega arith)

parse_tame_example : IsTame (parse 100 half) ⊎ HasTrap 100 half
parse_tame_example = parse_tame 100 half

parse_command_cut_example : parse_command 100 half ≡ ok none
unfolding to_string
parse_command_cut_example =
    parse_command_cut 100 ping half ping_text ping_text-IsRequest (omega arith) (omega arith)
      (omega arith) (codes "ng\r\n", cons-ne-nil 110 (codes "g\r\n"), refl)
