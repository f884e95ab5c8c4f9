-- ===== src/Connection/Full.antt =====
-- A connection of connection.cpp whose read buffer is full.
use vector_engine.Common.{ℕ, ◌<◌, ◌≡◌, ◌↔◌, refl, negsuc, [], ◌∷◌, arith, length}
use vector_engine.Errors.{ok}
use vector_engine.ReadBuffer.{Region, contents}
use vector_engine.ReadBuffer.Growth.{IsValid, alloc-Allocated}
use vector_engine.ReadBuffer.Queue.{room_enough, length-text}
use vector_engine.Connection.{Connection, close, on_alloc, on_read}
use vector_engine.Connection.Requests.{on_alloc-eq-ok}

-- For a connection with a valid buffer and a suggested size above 0, `on_alloc` returns, and the
-- region that it hands out is empty exactly when the buffer holds as many bytes as it may; with
-- the error that libuv then reports, as with any other, `on_read` closes the connection and
-- dispatches nothing.
pub full_buffer_closes :
    (reserve_limit n m : ℕ) (conn : Connection)
    → IsValid conn.read_buf
    → 0 < n
    → (conn' : Connection) × (r : Region) × (on_alloc conn n ≡ ok (conn', r))
      × ((r.len ≡ 0) ↔ (length (contents conn.read_buf) ≡ conn.read_buf.max_size))
      × (on_read reserve_limit conn' (negsuc m) ≡ ok (conn', close ∷ []))
unfolding on_read
full_buffer_closes reserve_limit n m conn v some_bytes =
    let (b, r, e, a) = alloc-Allocated conn.read_buf n v in
    let held = length-text conn.read_buf v in
    (
      record conn { read_buf = b },
      r,
      on_alloc-eq-ok conn n e,
      (
        λ empty. ground (arith, room_enough conn.read_buf b n r v a, empty, some_bytes),
        λ full. omega (arith, full, held, a.free, a.same_size, a.same_limits.1, a.valid.most),
      ),
      refl,
    )
