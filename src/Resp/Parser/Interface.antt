-- ===== src/Resp/Parser/Interface.antt =====
-- The class `RespCommandParser` of resp.h, with what it promises; and resp.cpp as such.
use vector_engine.Common.{ℕ, ◌≡◌, ◌≢◌, List, ◌++◌, Option, some, Bytes, drop}
use vector_engine.Errors.{Outcome, ok, diverges, IsTame, ◌>>=◌}
use vector_engine.Resp.Command.{RespCommand}
use vector_engine.Resp.Format.{IsBulk}
use vector_engine.Resp.Parser.{parse_num, parse_argc, parse_argv, parse}
use vector_engine.Resp.Parser.Complete.{parse_argv-append}
use vector_engine.Resp.Parser.Total.{parse_num-IsTame, parse-ne-diverges}
use vector_engine.Resp.Parser.Stream.{Parsed, parse_sound, parse_chunks}
use vector_engine.Resp.Parser.Loop.{behind}

module _ (reserve_limit : ℕ) where
  pub record RespCommandParser : Type 0 where
    pub commands : Bytes → Outcome (List RespCommand × ℕ)
    pub num : ℕ → Bytes → Outcome (Option (ℕ × Bytes))
    pub argc : Bytes → Outcome (Option (ℕ × Bytes))
    pub argv : Bytes → Outcome (Option (Bytes × Bytes))
    pub num_law : (c : ℕ) (s : Bytes) → IsTame (num c s)
    pub argv_law :
        {s : Bytes} (p rest : Bytes) → IsBulk s p → argv (p ++ rest) ≡ ok (some (s, rest))
    pub ends_law : (buffer : Bytes) → commands buffer ≢ diverges
    pub sound_law :
        (buffer : Bytes) {cs : List RespCommand} {n : ℕ}
        → commands buffer ≡ ok (cs, n)
        → Parsed reserve_limit buffer cs n
    pub chunks_law :
        (a b : Bytes) {cs : List RespCommand} {n : ℕ}
        → commands a ≡ ok (cs, n)
        → commands (a ++ b) ≡ (commands (drop n a ++ b) >>= behind cs n)

  abbrev pub resp_command_parser : RespCommandParser
  resp_command_parser = record {
    commands = parse reserve_limit;
    num = parse_num;
    argc = parse_argc;
    argv = parse_argv;
    num_law = parse_num-IsTame;
    argv_law = parse_argv-append;
    ends_law = parse-ne-diverges reserve_limit;
    sound_law = parse_sound reserve_limit;
    chunks_law = parse_chunks reserve_limit;
  }
