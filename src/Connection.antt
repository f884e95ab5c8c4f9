-- ===== src/Connection.antt =====
-- connection.h and connection.cpp. A callback is a function from the connection to the connection
-- after it and the calls that it makes on the reactor and on libuv.
pub mod Dispatch
pub mod Read
pub mod Stream
pub mod Kept
pub mod Progress
pub mod Requests
pub mod Full
pub mod Survive
pub mod Reject
pub mod Assertions
use vector_engine.Common.{
  ℕ, zero, suc, ℤ, pos, negsuc, List, [], ◌∷◌, ◌++◌, Bytes, length, ltb, leb, if◌then◌else◌,
}
use vector_engine.Errors.{Outcome, ok, throws, undefined, diverges, engine, standard, ◌>>=◌}
use vector_engine.Task.{Task}
use vector_engine.Protocol.{ProtocolType, ResponseBuilder, create_response_builder, parse_request}
use vector_engine.ReadBuffer.{ReadBuffer, Region, make, contents, alloc, occupy, dealloc}

pub record ConnectionOptions : Type 0 where
  pub read_buf_min_size : ℕ
  pub read_buf_max_size : ℕ

pub record Connection : Type 0 where
  pub id : ℕ
  pub read_buf : ReadBuffer
  pub protocol : ProtocolType

-- `dispatch` is `Reactor::dispatch` with the tasks and the response builder of the protocol;
-- `close` is `uv::handle_close` with `on_close`.
pub data Effect : Type 0 where
  dispatch : ℕ → List Task → ResponseBuilder → Effect
  close : Effect

-- The constructor.
unfoldable pub make_connection : ℕ → ConnectionOptions → ProtocolType → Outcome Connection
make_connection id opts protocol = do
  b ← make opts.read_buf_min_size opts.read_buf_max_size
  ok (record { id = id; read_buf = b; protocol = protocol })

unfoldable pub on_alloc : Connection → ℕ → Outcome (Connection × Region)
on_alloc conn suggested_size = do
  (b, r) ← alloc conn.read_buf suggested_size
  ok (record conn { read_buf = b }, r)

-- The body of the `try` block behind `_parse_request`.
pub take_tasks : Connection → List Task × ℕ → Outcome (Connection × List Effect)
take_tasks conn ([], len) = ok (conn, [])
take_tasks conn (t ∷ ts, len) =
    if ltb 0 len
    then (dealloc conn.read_buf len >>= λ b. create_response_builder conn.protocol >>= λ builder.
        ok (record conn { read_buf = b }, dispatch conn.id (t ∷ ts) builder ∷ []))
    else undefined

-- The `try` statement: its handler closes the connection at an `Error`, and at nothing else.
pub catch_error :
    Connection → Outcome (Connection × List Effect) → Outcome (Connection × List Effect)
catch_error conn (ok r) = ok r
catch_error conn (throws (engine e)) = ok (conn, close ∷ [])
catch_error conn (throws standard) = throws standard
catch_error conn undefined = undefined
catch_error conn diverges = diverges

module _ (reserve_limit : ℕ) where
  unfoldable pub parse_and_dispatch : Connection → Outcome (Connection × List Effect)
  unfolding take_tasks catch_error
  parse_and_dispatch conn =
      catch_error conn
        (parse_request reserve_limit conn.protocol (contents conn.read_buf) >>= take_tasks conn)

  -- A negative `nread` is an error or the end of the stream.
  unfoldable pub on_read : Connection → ℤ → Outcome (Connection × List Effect)
  on_read conn (pos zero) = ok (conn, [])
  on_read conn (pos (suc n)) = do
    b ← occupy conn.read_buf (suc n)
    parse_and_dispatch (record conn { read_buf = b })
  on_read conn (negsuc n) = ok (conn, close ∷ [])
