-- ===== src/Connection/Kept.antt =====
-- What every read of connection.cpp leaves alone, also one that closes the connection.
use vector_engine.Common.{
  ℕ, suc, zero, ◌≡◌, refl, ◌∙◌, subst, ℤ, pos, negsuc, List, [], ◌∷◌, Bytes, All, length, leb, ltb,
  Bool-cases, inl, inr,
}
use vector_engine.Errors.{
  Outcome, ok, throws, undefined, diverges, engine, standard, ◌>>=◌, Ensures, Ensures-bind,
  Ensures-then,
}
use vector_engine.Task.{Task}
use vector_engine.Protocol.{create_response_builder, parse_request}
use vector_engine.ReadBuffer.{ReadBuffer, Region, alloc, occupy, dealloc, contents}
use vector_engine.ReadBuffer.Limit.{HasLimit, alloc_kept, occupy_kept, dealloc_kept}
use vector_engine.ReadBuffer.Fifo.{fill}
use vector_engine.Connection.{
  Connection, Effect, dispatch, close, on_alloc, take_tasks, catch_error, parse_and_dispatch,
  on_read,
}
use vector_engine.Connection.Read.{receive}

-- A call on the reactor carries the connection's id.
abbrev pub IsFrom : ℕ → Effect → Type 0
IsFrom id (dispatch j ts builder) = j ≡ id
IsFrom id close = Unit

pub record Kept (conn : Connection) (o : Connection × List Effect) : Type 0 where
  pub same_id : o.0.id ≡ conn.id
  pub same_protocol : o.0.protocol ≡ conn.protocol
  pub same_limit : HasLimit conn.read_buf o.0.read_buf
  pub from : All (IsFrom conn.id) o.1

Kept-then :
    (conn c : Connection) (o : Connection × List Effect)
    → Kept conn (c, [])
    → Kept c o
    → Kept conn o
Kept-then conn c o first k = record {
  same_id = k.same_id ∙ first.same_id;
  same_protocol = k.same_protocol ∙ first.same_protocol;
  same_limit = k.same_limit ∙ first.same_limit;
  from = subst (λ id. All (IsFrom id) o.1) first.same_id k.from;
}

-- A call that goes on with a connection that was kept.
Ensures-Kept :
    (conn c : Connection) (m : Outcome (Connection × List Effect))
    → Kept conn (c, [])
    → Ensures (Kept c) m
    → Ensures (Kept conn) m
Ensures-Kept conn c (ok o) first h = Kept-then conn c o first h
Ensures-Kept conn c (throws e) first h = tt
Ensures-Kept conn c undefined first h = tt
Ensures-Kept conn c diverges first h = tt

keep_buffer :
    (conn : Connection) (b : ReadBuffer)
    → HasLimit conn.read_buf b
    → Kept conn (record conn { read_buf = b }, [])
keep_buffer conn b same = record {
  same_id = refl;
  same_protocol = refl;
  same_limit = same;
  from = tt;
}

take_tasks-Kept : (conn : Connection) (r : List Task × ℕ) → Ensures (Kept conn) (take_tasks conn r)
unfolding take_tasks
take_tasks-Kept conn ([], len) = record {
  same_id = refl;
  same_protocol = refl;
  same_limit = refl;
  from = tt;
}
take_tasks-Kept conn (t ∷ ts, len) = elim (Bool-cases (ltb 0 len)) [
  | inl some_bytes ↦ rw some_bytes (
      Ensures-bind (HasLimit conn.read_buf) (Kept conn) (dealloc conn.read_buf len) _
        (dealloc_kept conn.read_buf len)
        (λ b same. Ensures-then (Kept conn) (create_response_builder conn.protocol) _ (λ builder.
          record { same_id = refl; same_protocol = refl; same_limit = same; from = (refl, tt) })))
  | inr no_byte ↦ rw no_byte tt
]

catch_error-Kept :
    (conn : Connection) (m : Outcome (Connection × List Effect))
    → Ensures (Kept conn) m
    → Ensures (Kept conn) (catch_error conn m)
unfolding catch_error
catch_error-Kept conn (ok r) h = h
catch_error-Kept conn (throws (engine e)) h = record {
  same_id = refl;
  same_protocol = refl;
  same_limit = refl;
  from = (tt, tt);
}
catch_error-Kept conn (throws standard) h = tt
catch_error-Kept conn undefined h = tt
catch_error-Kept conn diverges h = tt

module _ (reserve_limit : ℕ) where
  parse_and_dispatch-Kept :
      (conn : Connection) → Ensures (Kept conn) (parse_and_dispatch reserve_limit conn)
  unfolding parse_and_dispatch
  parse_and_dispatch-Kept conn =
      catch_error-Kept conn
        (parse_request reserve_limit conn.protocol (contents conn.read_buf) >>= take_tasks conn)
        (Ensures-then (Kept conn)
          (parse_request reserve_limit conn.protocol (contents conn.read_buf)) (take_tasks conn)
          (take_tasks-Kept conn))

  pub on_read-Kept :
      (conn : Connection) (nread : ℤ) → Ensures (Kept conn) (on_read reserve_limit conn nread)
  unfolding on_read
  on_read-Kept conn (pos zero) = record {
    same_id = refl;
    same_protocol = refl;
    same_limit = refl;
    from = tt;
  }
  on_read-Kept conn (pos (suc n)) =
      Ensures-bind (HasLimit conn.read_buf) (Kept conn) (occupy conn.read_buf (suc n)) _
        (occupy_kept conn.read_buf (suc n))
        (λ b same.
          Ensures-Kept conn (record conn { read_buf = b }) _ (keep_buffer conn b same)
            (parse_and_dispatch-Kept (record conn { read_buf = b })))
  on_read-Kept conn (negsuc n) = record {
    same_id = refl;
    same_protocol = refl;
    same_limit = refl;
    from = (tt, tt);
  }

  -- A read leaves the connection's id, its protocol and the limit of its buffer alone, and its
  -- calls carry its id.
  pub receive-Kept :
      (conn : Connection) (n : ℕ) (bytes : Bytes)
      → Ensures (Kept conn) (receive reserve_limit conn n bytes)
  unfolding receive on_alloc fill
  receive-Kept conn n bytes =
      Ensures-bind (λ (q : Connection × Region). Kept conn (q.0, [])) (Kept conn) (on_alloc conn n)
        _
        (Ensures-bind (λ (q : ReadBuffer × Region). HasLimit conn.read_buf q.0)
          (λ (q : Connection × Region). Kept conn (q.0, [])) (alloc conn.read_buf n) _
          (alloc_kept conn.read_buf n) (λ q same. keep_buffer conn q.0 same))
        (λ q k. elim (Bool-cases (leb (length bytes) q.1.len)) [
          | inl fits ↦ rw fits (
              Ensures-Kept conn (record q.0 { read_buf = fill q.0.read_buf bytes }) _
                (read_into q.0 k)
                (on_read-Kept (record q.0 { read_buf = fill q.0.read_buf bytes })
                  (pos (length bytes))))
          | inr over ↦ rw over tt
        ])
    where
      read_into :
          (c : Connection)
          → Kept conn (c, [])
          → Kept conn (record c { read_buf = fill c.read_buf bytes }, [])
      read_into c k = record {
        same_id = k.same_id;
        same_protocol = k.same_protocol;
        same_limit = k.same_limit;
        from = tt;
      }
