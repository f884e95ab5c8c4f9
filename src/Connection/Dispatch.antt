-- ===== src/Connection/Dispatch.antt =====
-- The `try` block of `on_read` in connection.cpp behind a parse.
use mathlib.Core.List.{cons-ne-nil}
use vector_engine.Common.{
  All, ℕ, ◌≤◌, ◌<◌, ◌≡◌, ◌≢◌, refl, sym, subst, ap, List, [], ◌∷◌, ◌++◌, map, append-nil, arith,
  Bytes, length, length-take, drop, lt→ltb,
}
use vector_engine.Errors.{
  Outcome, ok, throws, undefined, diverges, engine, standard, ◌>>=◌, ok_pair-injective,
}
use vector_engine.Resp.Command.{RespCommand}
use vector_engine.Resp.Parser.{parse}
use vector_engine.Resp.Parser.Stream.{parse_sound, parse_taken}
use vector_engine.Task.{Task, create}
use vector_engine.Protocol.{
  ProtocolType, resp, ResponseBuilder, resp_response_builder, create_response_builder,
  create_request_parser, parse_with, parse_resp_request, parse_request,
}
use vector_engine.ReadBuffer.{dealloc, ReadBuffer, contents}
use vector_engine.ReadBuffer.Growth.{IsValid}
use vector_engine.ReadBuffer.Fifo.{dealloc-drop}
use vector_engine.Connection.{
  Connection, Effect, dispatch, close, take_tasks, catch_error, parse_and_dispatch,
}

-- The tasks that a list of calls hands to the reactor, in order.
abbrev pub dispatched : List Effect → List Task
dispatched [] = []
dispatched (dispatch id ts p ∷ es) = ts ++ dispatched es
dispatched (close ∷ es) = dispatched es

-- No call closes the connection.
abbrev pub StaysOpen : List Effect → Type 0
StaysOpen [] = Unit
StaysOpen (dispatch id ts p ∷ es) = StaysOpen es
StaysOpen (close ∷ es) = ⊥

-- A call hands over tasks of the connection `id`, to be answered in RESP.
abbrev pub IsOwn : ℕ → Effect → Type 0
IsOwn id (dispatch j ts builder) = (j ≡ id) × (builder ≡ resp_response_builder)
IsOwn id close = Unit

-- The connection after its callbacks have taken `ts` and `n` bytes off its buffer.
pub record Taken (conn : Connection) (ts : List Task) (n : ℕ) (conn' : Connection)
    (es : List Effect) : Type 0 where
  pub tasks : dispatched es ≡ ts
  pub open_still : StaysOpen es
  pub own : All (IsOwn conn.id) es
  pub left : contents conn'.read_buf ≡ drop n (contents conn.read_buf)
  pub valid : IsValid conn'.read_buf
  pub same_id : conn'.id ≡ conn.id
  pub same_protocol : conn'.protocol ≡ conn.protocol

take_tasks_some :
    (conn : Connection) (t : Task) (ts : List Task) (n : ℕ) {b : ReadBuffer}
    {builder : ResponseBuilder}
    → 0 < n
    → dealloc conn.read_buf n ≡ ok b
    → create_response_builder conn.protocol ≡ ok builder
    → take_tasks conn (t ∷ ts, n)
      ≡ ok (record conn { read_buf = b }, dispatch conn.id (t ∷ ts) builder ∷ [])
unfolding take_tasks
take_tasks_some conn t ts n some_taken e e' = rw (lt→ltb 0 n some_taken, e, e')

create_resp_builder :
    (p : ProtocolType) → p ≡ resp → create_response_builder p ≡ ok resp_response_builder
unfolding create_response_builder
create_resp_builder p h = rw h

take_tasks-Taken :
    (conn : Connection) (ts : List Task) (n : ℕ)
    → IsValid conn.read_buf
    → conn.protocol ≡ resp
    → (ts ≡ [] → n ≡ 0)
    → (ts ≢ [] → 0 < n)
    → n ≤ conn.read_buf.size
    → (conn' : Connection) × (es : List Effect) × (take_tasks conn (ts, n) ≡ ok (conn', es))
      × Taken conn ts n conn' es
unfolding take_tasks
take_tasks-Taken conn [] n v p none_taken taken fits = (
  conn,
  [],
  refl,
  record {
    tasks = refl;
    open_still = tt;
    own = tt;
    left = rw (none_taken refl);
    valid = v;
    same_id = refl;
    same_protocol = refl;
  },
)
take_tasks-Taken conn (t ∷ ts) n v p none_taken taken fits =
    let some_taken = taken (cons-ne-nil t ts) in
    let (b, e, valid, left) = dealloc-drop conn.read_buf n v some_taken fits in
    (
      record conn { read_buf = b },
      dispatch conn.id (t ∷ ts) resp_response_builder ∷ [],
      take_tasks_some conn t ts n some_taken e (create_resp_builder conn.protocol p),
      record {
        tasks = append-nil (t ∷ ts);
        open_still = tt;
        own = ((refl, refl), tt);
        left = left;
        valid = valid;
        same_id = refl;
        same_protocol = refl;
      },
    )

length-contents : (b : ReadBuffer) → IsValid b → length (contents b) ≡ b.size
length-contents b v = length-take b.size b.buf v.occupied

map-eq-nil : (cs : List RespCommand) → map create cs ≡ [] → cs ≡ []
map-eq-nil [] h = refl
map-eq-nil (c ∷ cs) h = cc

module _ (reserve_limit : ℕ) where
  parse_request-eq-ok :
      (p : ProtocolType) (buffer : Bytes) {cs : List RespCommand} {n : ℕ}
      → p ≡ resp
      → parse reserve_limit buffer ≡ ok (cs, n)
      → parse_request reserve_limit p buffer ≡ ok (map create cs, n)
  unfolding parse_request create_request_parser parse_with parse_resp_request
  parse_request-eq-ok p buffer h e = rw (h, e)

  -- If the buffer of a RESP connection is valid and parses, then no assertion behind the parse
  -- fails: the tasks of the commands are dispatched, their bytes are taken off, the buffer stays
  -- valid and the connection stays open.
  pub parse_and_dispatch_ok :
      (conn : Connection) {cs : List RespCommand} {n : ℕ}
      → IsValid conn.read_buf
      → conn.protocol ≡ resp
      → parse reserve_limit (contents conn.read_buf) ≡ ok (cs, n)
      → (conn' : Connection) × (es : List Effect) × (parse_and_dispatch reserve_limit conn
          ≡ ok (conn', es))
        × Taken conn (map create cs) n conn' es
  unfolding parse_and_dispatch
  parse_and_dispatch_ok conn {cs} {n} v p e =
      let t = parse_sound reserve_limit (contents conn.read_buf) e in
      let (nothing, something, fits) = parse_taken reserve_limit (contents conn.read_buf) cs n t in
      let (conn', es, e', taken) =
        take_tasks-Taken conn (map create cs) n v p (λ h. nothing (map-eq-nil cs h))
          (λ h. something (λ h'. h (ap (map create) h')))
          (omega (arith, fits, length-contents conn.read_buf v)) in
      (
        conn',
        es,
        rw (parse_request-eq-ok conn.protocol (contents conn.read_buf) p e)
            (ap (catch_error conn) e'),
        taken,
      )

  to_tasks : List RespCommand × ℕ → Outcome (List Task × ℕ)
  to_tasks (cmds, len) = ok (map create cmds, len)

  parse_request-resp :
      (p : ProtocolType) (buffer : Bytes)
      → p ≡ resp
      → parse_request reserve_limit p buffer ≡ (parse reserve_limit buffer >>= to_tasks)
  unfolding parse_request create_request_parser parse_with parse_resp_request to_tasks
  parse_request-resp p buffer h = rw h

  StaysOpen-ok :
      (conn : Connection) (o : Outcome (List RespCommand × ℕ)) {conn' : Connection}
      {es : List Effect}
      → catch_error conn (o >>= to_tasks >>= take_tasks conn) ≡ ok (conn', es)
      → StaysOpen es
      → (cs : List RespCommand) × (n : ℕ) × (o ≡ ok (cs, n))
  unfolding catch_error
  StaysOpen-ok conn (ok (cs, n)) h stays = (cs, n, refl)
  StaysOpen-ok conn (throws (engine e)) h stays =
      absurd (subst StaysOpen (sym (ok_pair-injective h).1) stays)
  StaysOpen-ok conn (throws standard) h stays = cc
  StaysOpen-ok conn undefined h stays = cc
  StaysOpen-ok conn diverges h stays = cc

  -- A connection that stays open has parsed its buffer.
  pub parse_and_dispatch_open :
      (conn : Connection) {conn' : Connection} {es : List Effect}
      → conn.protocol ≡ resp
      → parse_and_dispatch reserve_limit conn ≡ ok (conn', es)
      → StaysOpen es
      → (cs : List RespCommand) × (n : ℕ) × (parse reserve_limit (contents conn.read_buf)
          ≡ ok (cs, n))
  unfolding parse_and_dispatch
  parse_and_dispatch_open conn p h stays =
      StaysOpen-ok conn (parse reserve_limit (contents conn.read_buf))
        (rw (parse_request-resp conn.protocol (contents conn.read_buf) p) at h) stays
