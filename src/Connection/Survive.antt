-- ===== src/Connection/Survive.antt =====
-- A connection of connection.cpp that is sent anything at all.
use vector_engine.Common.{
  ℕ, ◌+◌, ◌≤◌, ◌≡◌, refl, sym, subst, ap, ◌∙◌, ◌⊎◌, inl, inr, pos, List, [], ◌∷◌, ◌++◌, Bytes,
  length, leb, leb-true, Bool-cases, arith,
}
use vector_engine.Errors.{
  Outcome, ok, throws, undefined, diverges, engine, standard, ok_pair-injective, IsTame,
}
use vector_engine.Resp.Command.{RespCommand}
use vector_engine.Resp.Parser.{parse}
use vector_engine.Resp.Parser.Tame.{HasTrap, parse_tame}
use vector_engine.Protocol.{resp, create_request_parser, parse_request}
use vector_engine.ReadBuffer.{Region, contents}
use vector_engine.ReadBuffer.Growth.{IsValid, alloc-Allocated}
use vector_engine.ReadBuffer.Fifo.{fill, fill-nil, occupy-fill}
use vector_engine.Connection.{Connection, Effect, close, on_alloc, on_read, parse_and_dispatch}
use vector_engine.Connection.Dispatch.{parse_and_dispatch_ok}
use vector_engine.Connection.Read.{receive, receive-eq}
use vector_engine.Connection.Progress.{same_region}

-- A call that returns, with a valid buffer, for a connection that is as it was but for its buffer.
pub record Survives (conn : Connection) (m : Outcome (Connection × List Effect)) : Type 0 where
  pub conn' : Connection
  pub es : List Effect
  pub returns : m ≡ ok (conn', es)
  pub valid : IsValid conn'.read_buf
  pub same_protocol : conn'.protocol ≡ conn.protocol

module _ (reserve_limit : ℕ) where
  outcome-Survives :
      (conn : Connection) (o : Outcome (List RespCommand × ℕ))
      → IsValid conn.read_buf
      → conn.protocol ≡ resp
      → parse reserve_limit (contents conn.read_buf) ≡ o
      → IsTame o
      → Survives conn (parse_and_dispatch reserve_limit conn)
  unfolding parse_and_dispatch parse_request create_request_parser
  outcome-Survives conn (ok (cs, n)) v p e tame =
      let (conn', es, done, t) = parse_and_dispatch_ok reserve_limit conn v p e in
      record {
        conn' = conn';
        es = es;
        returns = done;
        valid = t.valid;
        same_protocol = t.same_protocol;
      }
  outcome-Survives conn (throws (engine x)) v p e tame = record {
    conn' = conn;
    es = close ∷ [];
    returns = rw (p, e) refl;
    valid = v;
    same_protocol = refl;
  }
  outcome-Survives conn (throws standard) v p e tame = absurd tame
  outcome-Survives conn undefined v p e tame = absurd tame
  outcome-Survives conn diverges v p e tame = absurd tame

  on_read-Survives :
      (conn c : Connection) (bytes : Bytes)
      → contents c.read_buf ≡ contents conn.read_buf
      → IsValid c.read_buf
      → c.read_buf.size + length bytes ≤ length c.read_buf.buf
      → c.protocol ≡ conn.protocol
      → conn.protocol ≡ resp
      → Survives conn (
          on_read reserve_limit
            (record c { read_buf = fill c.read_buf bytes })
            (pos (length bytes)))
        ⊎ HasTrap reserve_limit (contents conn.read_buf ++ bytes)
  unfolding on_read
  on_read-Survives conn c [] same v fits protocols p = inl (record {
    conn' = c;
    es = [];
    returns = rw (fill-nil c.read_buf);
    valid = v;
    same_protocol = protocols;
  })
  on_read-Survives conn c (x ∷ xs) same v fits protocols p =
      let (b, e, valid, arrived) = occupy-fill c.read_buf (x ∷ xs) v fits in
      let whole : contents b ≡ contents conn.read_buf ++ x ∷ xs =
        arrived ∙ ap (λ (s : Bytes). s ++ x ∷ xs) same in
      elim (parse_tame reserve_limit (contents b)) [
        | inl tame ↦
            let t =
              outcome-Survives (record c { read_buf = b }) _ valid (protocols ∙ p) refl tame in
            inl (record {
              conn' = t.conn';
              es = t.es;
              returns = rw e t.returns;
              valid = t.valid;
              same_protocol = t.same_protocol ∙ protocols;
            })
        | inr trap ↦ inr (subst (HasTrap reserve_limit) whole trap)
      ]

  -- A read of a RESP connection with a valid buffer, whatever the bytes it brings into the region
  -- that `on_alloc` gave, returns and leaves a valid buffer, unless the buffer then holds a
  -- header that declares an argument of 2^64 - 2 bytes or more, or more arguments than `reserve`
  -- grants: no assertion fails and no exception escapes, and the connection keeps its protocol.
  pub receive-Survives :
      (conn c : Connection) (r : Region) (suggested_size : ℕ) (bytes : Bytes)
      → IsValid conn.read_buf
      → conn.protocol ≡ resp
      → on_alloc conn suggested_size ≡ ok (c, r)
      → length bytes ≤ r.len
      → Survives conn (receive reserve_limit conn suggested_size bytes)
        ⊎ HasTrap reserve_limit (contents conn.read_buf ++ bytes)
  receive-Survives conn c r suggested_size bytes v p allocated fits =
      let (b, r', e, a) = alloc-Allocated conn.read_buf suggested_size v in
      let room : length bytes ≤ r'.len =
        subst (λ (q : Region). length bytes ≤ q.len) (same_region conn suggested_size e allocated)
          fits in
      elim (on_read-Survives conn (record conn { read_buf = b }) bytes a.same_contents a.valid
        (omega (arith, room, a.free)) refl p) [
          | inl t ↦ inl (record {
            conn' = t.conn';
            es = t.es;
            returns =
                rw
                  (
                    receive-eq reserve_limit conn suggested_size bytes b r' e,
                    leb-true (length bytes) r'.len room,
                  )
                  t.returns;
            valid = t.valid;
            same_protocol = t.same_protocol;
          })
          | inr trap ↦ inr trap
        ]

  -- Any outcome of the parse: where the call returns, the buffer is valid.
  outcome-IsValid :
      (conn : Connection) (o : Outcome (List RespCommand × ℕ)) {conn' : Connection}
      {es : List Effect}
      → IsValid conn.read_buf
      → conn.protocol ≡ resp
      → parse reserve_limit (contents conn.read_buf) ≡ o
      → parse_and_dispatch reserve_limit conn ≡ ok (conn', es)
      → IsValid conn'.read_buf
  unfolding parse_and_dispatch parse_request create_request_parser
  outcome-IsValid conn (ok (cs, n)) v p e h =
      let t = outcome-Survives conn (ok (cs, n)) v p e tt in
      subst (λ (c : Connection). IsValid c.read_buf) (ok_pair-injective (sym t.returns ∙ h)).0
        t.valid
  outcome-IsValid conn (throws (engine x)) v p e h =
      let t = outcome-Survives conn (throws (engine x)) v p e tt in
      subst (λ (c : Connection). IsValid c.read_buf) (ok_pair-injective (sym t.returns ∙ h)).0
        t.valid
  outcome-IsValid conn (throws standard) v p e h = absurd (cc (rw (p, e) at h))
  outcome-IsValid conn undefined v p e h = absurd (cc (rw (p, e) at h))
  outcome-IsValid conn diverges v p e h = absurd (cc (rw (p, e) at h))

  on_read-IsValid :
      (c : Connection) (bytes : Bytes) {conn' : Connection} {es : List Effect}
      → IsValid c.read_buf
      → c.read_buf.size + length bytes ≤ length c.read_buf.buf
      → c.protocol ≡ resp
      → on_read reserve_limit (record c { read_buf = fill c.read_buf bytes }) (pos (length bytes))
        ≡ ok (conn', es)
      → IsValid conn'.read_buf
  unfolding on_read
  on_read-IsValid c [] v fits p h =
      subst (λ (d : Connection). IsValid d.read_buf)
        (ok_pair-injective (rw (fill-nil c.read_buf) at h)).0 v
  on_read-IsValid c (x ∷ xs) v fits p h =
      let (b, e, valid, _) = occupy-fill c.read_buf (x ∷ xs) v fits in
      outcome-IsValid (record c { read_buf = b }) _ valid p refl (rw e at h)

  -- A read that returns leaves a valid buffer, also one that closes the connection.
  pub receive-IsValid :
      (conn : Connection) (suggested_size : ℕ) (bytes : Bytes) {conn' : Connection}
      {es : List Effect}
      → IsValid conn.read_buf
      → conn.protocol ≡ resp
      → receive reserve_limit conn suggested_size bytes ≡ ok (conn', es)
      → IsValid conn'.read_buf
  receive-IsValid conn suggested_size bytes v p h =
      let (b, r, e, a) = alloc-Allocated conn.read_buf suggested_size v in
      elim (Bool-cases (leb (length bytes) r.len)) [
        | inl fits ↦
            on_read-IsValid (record conn { read_buf = b }) bytes a.valid
              (ground (arith, a.free, fits)) p
              (rw (receive-eq reserve_limit conn suggested_size bytes b r e, fits) at h)
        | inr over ↦
            absurd (cc (rw (receive-eq reserve_limit conn suggested_size bytes b r e, over) at h))
      ]
