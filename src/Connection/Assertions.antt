-- ===== src/Connection/Assertions.antt =====
-- The assertions of connection.cpp and read_buffer.cpp behind a parse.
use vector_engine.Common.{ℕ, ◌≡◌, ◌≢◌, refl, sym, ◌∙◌, List}
use vector_engine.Errors.{Outcome, ok, throws, undefined, diverges, engine, standard}
use vector_engine.Resp.Command.{RespCommand}
use vector_engine.Resp.Parser.{parse}
use vector_engine.Resp.Parser.Total.{parse-ne-diverges}
use vector_engine.Protocol.{resp, create_request_parser, parse_request}
use vector_engine.ReadBuffer.{contents}
use vector_engine.ReadBuffer.Growth.{IsValid}
use vector_engine.Connection.{Connection, parse_and_dispatch}
use vector_engine.Connection.Dispatch.{parse_and_dispatch_ok}

module _ (reserve_limit : ℕ) where
  -- What the handler makes of each outcome of the parse.
  ends_by_outcome :
      (conn : Connection) (o : Outcome (List RespCommand × ℕ))
      → IsValid conn.read_buf
      → conn.protocol ≡ resp
      → parse reserve_limit (contents conn.read_buf) ≡ o
      → o ≢ diverges
      → (parse_and_dispatch reserve_limit conn ≢ diverges)
        × (parse_and_dispatch reserve_limit conn ≡ undefined → o ≡ undefined)
        × (parse_and_dispatch reserve_limit conn ≡ throws standard → o ≡ throws standard)
  unfolding parse_and_dispatch parse_request create_request_parser
  ends_by_outcome conn (ok (cs, n)) v p e ne =
      let (conn', es, done, _) = parse_and_dispatch_ok reserve_limit conn v p e in
      (λ h. cc (sym done ∙ h), λ h. cc (sym done ∙ h), λ h. cc (sym done ∙ h))
  ends_by_outcome conn (throws (engine x)) v p e ne =
      (λ h. cc (rw (p, e) at h), λ h. cc (rw (p, e) at h), λ h. cc (rw (p, e) at h))
  ends_by_outcome conn (throws standard) v p e ne =
      (λ h. cc (rw (p, e) at h), λ h. cc (rw (p, e) at h), λ h. refl)
  ends_by_outcome conn undefined v p e ne =
      (λ h. cc (rw (p, e) at h), λ h. refl, λ h. cc (rw (p, e) at h))
  ends_by_outcome conn diverges v p e ne = absurd (ne refl)

  -- Parsing and dispatching the valid buffer of a RESP connection ends; it fails an assertion or
  -- reads out of bounds only if the parser itself reads out of bounds, and throws an exception
  -- that is no `Error` only if the parser throws it.
  pub parse_and_dispatch-ends :
      (conn : Connection)
      → IsValid conn.read_buf
      → conn.protocol ≡ resp
      → (parse_and_dispatch reserve_limit conn ≢ diverges)
        × (parse_and_dispatch reserve_limit conn ≡ undefined
            → parse reserve_limit (contents conn.read_buf) ≡ undefined)
        × (parse_and_dispatch reserve_limit conn ≡ throws standard
            → parse reserve_limit (contents conn.read_buf) ≡ throws standard)
  parse_and_dispatch-ends conn v p =
      ends_by_outcome conn (parse reserve_limit (contents conn.read_buf)) v p refl
        (parse-ne-diverges reserve_limit (contents conn.read_buf))
