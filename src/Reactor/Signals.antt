-- ===== src/Reactor/Signals.antt =====
-- The signals of reactor.cpp, between threads, and the writes that libuv finishes.
use vector_engine.Common.{
  ℕ, ◌+◌, ◌<◌, ◌≤◌, ◌^◌, ◌≡◌, ◌⊎◌, inr, refl, sym, ap, subst, ◌∙◌, ℤ, pos, negsuc, true, false, [],
  ◌++◌, none, some, List,
}
use vector_engine.Errors.{ok, ok-injective, ok_pair-injective}
use vector_engine.Handle.{Handle, UPtr, get_data, delete_loop}
use vector_engine.Worker.{Reply}
use vector_engine.Reactor.{
  Reactor, Call, on_write, on_close, remove_connection, on_connect, owned, signal, notify,
  stop_reactor, send, on_stop, join_loop, loop_handles, delete_reactor,
}
use vector_engine.Reactor.Registry.{IsWired, create_client_lem}
use vector_engine.Connection.{Connection}
use vector_engine.Uv.{Libuv, enable_keepalive}

-- A handle with an owner is no null pointer.
signal-owned : (h : UPtr Handle) (r : Reactor) → owned h ≡ ok tt → signal h r ≡ ok r
unfolding owned get_data signal
signal-owned none r e = cc
signal-owned (some h) r e = refl

-- `send` puts the replies behind those that wait, and leaves a signal.
pub send_lem :
    (rs : List Reply) (r : Reactor)
    → IsWired r
    → send rs r ≡ ok (record r { replies = r.replies ++ rs; reply_pending = true })
unfolding send notify
send_lem rs r wired = signal-owned r.reply_async _ wired.reply_async

pub stop_reactor_lem :
    (r : Reactor) → IsWired r → stop_reactor r ≡ ok (record r { stop_pending = true })
unfolding stop_reactor
stop_reactor_lem r wired = signal-owned r.stop_async _ wired.stop_async

-- With the handles of the reactor wired to it and the thread of its loop running, the destructor
-- returns: the loop is stopped, its thread is joined, no stop signal is left, and the connections
-- are still in the map.
pub delete_reactor_stops :
    (uv : Libuv) (r : Reactor)
    → IsWired r
    → r.joinable ≡ true
    → (r' : Reactor) × (delete_reactor uv r
        ≡ ok (r', delete_loop uv.loop_close (some (loop_handles r))))
      × (r'.loop_stopped ≡ true)
      × (r'.joinable ≡ false)
      × (r'.stop_pending ≡ false)
      × (r'.connections ≡ r.connections)
unfolding delete_reactor join_loop on_stop loop_handles
delete_reactor_stops uv r wired running = (
  record r { stop_pending = false; loop_stopped = true; joinable = false },
  rw (stop_reactor_lem r wired, running, wired.stop_async) refl,
  refl,
  refl,
  refl,
  refl,
)

-- A signal is on its way as long as replies wait.
abbrev pub IsSignalled : Reactor → Type 0
IsSignalled r = (r.replies ≡ []) ⊎ (r.reply_pending ≡ true)

pub send-IsSignalled :
    (rs : List Reply) (r : Reactor) {r' : Reactor} → IsWired r → send rs r ≡ ok r' → IsSignalled r'
send-IsSignalled rs r wired e =
    inr (ap (λ (q : Reactor). q.reply_pending) (ok-injective (sym e ∙ send_lem rs r wired)))

pub on_write-IsSignalled :
    (address : ℕ) (status : ℤ) (r : Reactor)
    → IsSignalled r
    → IsSignalled (on_write address status r)
unfolding on_write
on_write-IsSignalled address (pos n) r h = h
on_write-IsSignalled address (negsuc n) r h = h

pub on_close-IsSignalled :
    (conn : Connection) (r : Reactor) → IsSignalled r → IsSignalled (on_close conn r)
unfolding on_close remove_connection
on_close-IsSignalled conn r h = h

pub on_connect-IsSignalled :
    (uv : Libuv) (n : ℕ) (accept_err : ℤ) (r : Reactor) {r' : Reactor} {cs : List Call}
    → IsWired r
    → r.connection_cnt + 1 < 2 ^ 64
    → 0 < r.opts.connection_opts.read_buf_min_size
    → r.opts.connection_opts.read_buf_min_size ≤ r.opts.connection_opts.read_buf_max_size
    → r.opts.connection_opts.read_buf_max_size ≤ 2 ^ 63
    → enable_keepalive uv r.opts.tcp_opts.keepalive ≡ ok tt
    → on_connect uv (pos n) accept_err r ≡ ok (r', cs)
    → IsSignalled r
    → IsSignalled r'
unfolding on_connect
on_connect-IsSignalled uv n accept_err r wired unwrapped some_size le bounded alive e h =
    let (conn, e', _, _) = create_client_lem uv r unwrapped some_size le bounded alive in
    subst IsSignalled (ok_pair-injective (rw (wired.server, e') at e)).0 h
