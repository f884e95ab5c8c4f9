-- ===== src/Connection/Reject.antt =====
-- Requests that connection.cpp does not answer.
use vector_engine.Common.{
  ℕ, ◌+◌, ◌-◌, ◌<◌, ◌≡◌, ap, ◌∙◌, List, [], ◌∷◌, ◌++◌, Bytes, All, length, lt→ltb, ==_false, arith,
}
use vector_engine.Errors.{Error, ok, throws, engine, standard, ◌>>=◌}
use vector_engine.Resp.Command.{RespCommand, star}
use vector_engine.Resp.Format.{IsHeader, IsBulk, IsRequests}
use vector_engine.Resp.Parser.{read_args, read_command, parse_command, parse}
use vector_engine.Resp.Parser.Complete.{parse_num-append, parse_argv-append}
use vector_engine.Resp.Parser.Stream.{parse-append, parse_throws}
use vector_engine.Resp.Parser.Loop.{IsGranted, behind}
use vector_engine.Protocol.{resp, create_request_parser, parse_request}
use vector_engine.ReadBuffer.{contents}
use vector_engine.Connection.{Connection, close, parse_and_dispatch}

module _ (reserve_limit : ℕ) where
  parse-append_throws :
      (cs : List RespCommand) (p rest : Bytes) {e : Error}
      → IsRequests cs p
      → All (IsGranted reserve_limit) cs
      → parse_command reserve_limit rest ≡ throws (engine e)
      → parse reserve_limit (p ++ rest) ≡ throws (engine e)
  parse-append_throws cs p rest {e} h granted bad =
      parse-append reserve_limit cs p rest h granted
      ∙ ap (λ m. m >>= behind cs (length p)) (parse_throws reserve_limit rest (engine e) bad)

  parse_and_dispatch_throws :
      (conn : Connection) {e : Error}
      → conn.protocol ≡ resp
      → parse reserve_limit (contents conn.read_buf) ≡ throws (engine e)
      → parse_and_dispatch reserve_limit conn ≡ ok (conn, close ∷ [])
  unfolding parse_and_dispatch parse_request create_request_parser
  parse_and_dispatch_throws conn p h = rw (p, h)

  -- If the buffer of a RESP connection holds requests within the limits and behind them a text at
  -- which the parser throws an `Error`, the connection is closed and nothing is dispatched, not
  -- even the requests in front.
  pub bad_request_closes :
      (conn : Connection) (cs : List RespCommand) (p rest : Bytes) {e : Error}
      → conn.protocol ≡ resp
      → contents conn.read_buf ≡ p ++ rest
      → IsRequests cs p
      → All (IsGranted reserve_limit) cs
      → parse_command reserve_limit rest ≡ throws (engine e)
      → parse_and_dispatch reserve_limit conn ≡ ok (conn, close ∷ [])
  bad_request_closes conn cs p rest protocol whole h granted bad =
      parse_and_dispatch_throws conn protocol
        (ap (parse reserve_limit) whole ∙ parse-append_throws cs p rest h granted bad)

  parse_huge :
      (argc : ℕ) (name h b rest : Bytes)
      → IsHeader star argc h
      → IsBulk name b
      → reserve_limit + 1 < argc
      → parse_command reserve_limit (h ++ (b ++ rest)) ≡ throws standard
  unfolding parse_command read_command read_args
  parse_huge argc name h b rest counted named huge = rw (
    parse_num-append h (b ++ rest) counted,
    ==_false argc 0 (omega (arith, huge)),
    parse_argv-append b rest named,
    lt→ltb reserve_limit (argc - 1) (omega (arith, huge)),
  )

  -- A request with more arguments than `reserve` grants, whose name has arrived, throws an
  -- exception that is no `Error`: the handler of the connection does not catch it, and it leaves
  -- the callback.
  pub huge_count_escapes :
      (conn : Connection) (argc : ℕ) (name h b rest : Bytes)
      → conn.protocol ≡ resp
      → contents conn.read_buf ≡ h ++ (b ++ rest)
      → IsHeader star argc h
      → IsBulk name b
      → reserve_limit + 1 < argc
      → parse_and_dispatch reserve_limit conn ≡ throws standard
  unfolding parse_and_dispatch parse_request create_request_parser
  huge_count_escapes conn argc name h b rest protocol whole counted named huge = rw (
    protocol,
    whole,
    parse_throws reserve_limit (h ++ (b ++ rest)) standard
        (parse_huge argc name h b rest counted named huge),
  )
