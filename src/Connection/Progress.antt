-- ===== src/Connection/Progress.antt =====
-- A read of connection.cpp whose text parses.
use vector_engine.Common.{
  ℕ, ◌+◌, ◌≡◌, ◌≤◌, refl, sym, subst, ap, ◌∙◌, pos, List, [], ◌∷◌, ◌++◌, Bytes, length, leb-true,
  arith,
}
use vector_engine.Errors.{ok, ok_pair-injective}
use vector_engine.Resp.Command.{RespCommand}
use vector_engine.Resp.Parser.{parse}
use vector_engine.Protocol.{resp}
use vector_engine.ReadBuffer.{ReadBuffer, Region, alloc, contents}
use vector_engine.ReadBuffer.Growth.{IsValid, alloc-Allocated}
use vector_engine.ReadBuffer.Fifo.{fill, fill-nil, occupy-fill}
use vector_engine.Connection.{Connection, Effect, on_alloc, on_read}
use vector_engine.Connection.Dispatch.{StaysOpen, parse_and_dispatch_ok}
use vector_engine.Connection.Read.{receive, IsDrained, Step, Step-nothing, Taken-Step, receive-eq}

pub same_region :
    (conn : Connection) (n : ℕ) {c : Connection} {b : ReadBuffer} {r r' : Region}
    → alloc conn.read_buf n ≡ ok (b, r')
    → on_alloc conn n ≡ ok (c, r)
    → r ≡ r'
unfolding on_alloc
same_region conn n {c} {b} {r} {r'} e h =
    (ok_pair-injective {a = c} {a' = record conn { read_buf = b }} {b = r} {b' = r'}
      (sym h ∙ rw e)).1

module _ (reserve_limit : ℕ) where
  on_read_ok :
      (conn c : Connection) (bytes : Bytes) {cs : List RespCommand} {n : ℕ}
      → contents c.read_buf ≡ contents conn.read_buf
      → IsValid c.read_buf
      → c.read_buf.size + length bytes ≤ length c.read_buf.buf
      → c.id ≡ conn.id
      → c.protocol ≡ conn.protocol
      → conn.protocol ≡ resp
      → IsDrained reserve_limit conn
      → parse reserve_limit (contents conn.read_buf ++ bytes) ≡ ok (cs, n)
      → (conn' : Connection) × (es : List Effect) × (on_read reserve_limit
            (record c { read_buf = fill c.read_buf bytes })
            (pos (length bytes))
          ≡ ok (conn', es))
        × StaysOpen es
        × Step reserve_limit conn bytes conn' es
  unfolding on_read
  on_read_ok conn c [] same v fits ids protocols p drained e = (
    c,
    [],
    rw (fill-nil c.read_buf),
    tt,
    Step-nothing reserve_limit conn c same v ids protocols drained,
  )
  on_read_ok conn c (x ∷ xs) {cs} {n} same v fits ids protocols p drained e =
      let (b, e', valid, arrived) = occupy-fill c.read_buf (x ∷ xs) v fits in
      let whole = arrived ∙ ap (λ (s : Bytes). s ++ x ∷ xs) same in
      let parsed = ap (parse reserve_limit) whole ∙ e in
      let (conn', es, done, t) =
        parse_and_dispatch_ok reserve_limit (record c { read_buf = b }) valid (protocols ∙ p)
          parsed in
      (
        conn',
        es,
        rw e' done,
        t.open_still,
        Taken-Step reserve_limit conn (record c { read_buf = b }) conn' (x ∷ xs) cs n es whole ids
            protocols parsed t,
      )

  -- A read of a RESP connection with a valid buffer that holds no complete request, into the
  -- region that `on_alloc` gave, behind which the buffer parses, returns: it leaves the
  -- connection open, dispatches the tasks of the commands and keeps the bytes behind them.
  pub receive_ok :
      (conn c : Connection) (r : Region) (suggested_size : ℕ) (bytes : Bytes)
      {cs : List RespCommand} {n : ℕ}
      → IsValid conn.read_buf
      → conn.protocol ≡ resp
      → IsDrained reserve_limit conn
      → on_alloc conn suggested_size ≡ ok (c, r)
      → length bytes ≤ r.len
      → parse reserve_limit (contents conn.read_buf ++ bytes) ≡ ok (cs, n)
      → (conn' : Connection) × (es : List Effect) × (receive reserve_limit conn suggested_size bytes
          ≡ ok (conn', es))
        × StaysOpen es
        × Step reserve_limit conn bytes conn' es
  receive_ok conn c r suggested_size bytes v p drained allocated fits e =
      let (b, r', e', a) = alloc-Allocated conn.read_buf suggested_size v in
      let room : length bytes ≤ r'.len =
        subst (λ (q : Region). length bytes ≤ q.len) (same_region conn suggested_size e' allocated)
          fits in
      let (conn', es, done, stays, s) =
        on_read_ok conn (record conn { read_buf = b }) bytes a.same_contents a.valid
          (omega (arith, room, a.free)) refl refl p drained e in
      (
        conn',
        es,
        rw
            (
              receive-eq reserve_limit conn suggested_size bytes b r' e',
              leb-true (length bytes) r'.len room,
            )
            done,
        stays,
        s,
      )
