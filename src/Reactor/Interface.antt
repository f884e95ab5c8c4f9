-- ===== src/Reactor/Interface.antt =====
-- The callbacks of connection.h and the class of reactor.h, with what they promise; and
-- connection.cpp and reactor.cpp as such.
use vector_engine.Common.{
  ℕ, ◌<◌, ◌≤◌, ◌^◌, ◌≡◌, ◌≢◌, some, true, false, ℤ, List, [], ◌++◌, none, Bytes,
}
use vector_engine.Common.Maps.{find}
use vector_engine.Errors.{Outcome, ok}
use vector_engine.Task.{Task}
use vector_engine.Protocol.{ProtocolType, ResponseBuilder, parse_request}
use vector_engine.ReadBuffer.{Region}
use vector_engine.Connection.{
  Connection, ConnectionOptions, Effect, make_connection, on_alloc, on_read,
}
use vector_engine.Connection.Stream.{IsNew, make_connection-IsNew}
use vector_engine.Worker.{Reply, WorkerPool}
use vector_engine.Handle.{LoopCall, delete_loop}
use vector_engine.Uv.{Libuv}
use vector_engine.Reactor.{
  Reactor, ReactorOptions, Call, on_close, on_connect, on_stop, on_reply, on_write, on_timer,
  make_reactor, loop_handles, delete_reactor, send, stop_reactor, notify, create_client, send_reply,
  send_pending, dispatch,
}
use vector_engine.Reactor.Registry.{IsRegistry, IsWired, on_close_unregisters}
use vector_engine.Reactor.Send.{written, replies_to, if_open, on_reply-written}
use vector_engine.Reactor.Signals.{send_lem, delete_reactor_stops}

module _ (reserve_limit : ℕ) where
  pub record ConnectionClass : Type 0 where
    pub new : ℕ → ConnectionOptions → ProtocolType → Outcome Connection
    pub alloc_callback : Connection → ℕ → Outcome (Connection × Region)
    pub close_callback : Connection → Reactor → Reactor
    pub read_callback : Connection → ℤ → Outcome (Connection × List Effect)
    pub request : ProtocolType → Bytes → Outcome (List Task × ℕ)
    pub new_law :
        (id least most : ℕ) (protocol : ProtocolType)
        → 0 < least
        → least ≤ most
        → most ≤ 2 ^ 63
        → (conn : Connection) × (new id
              (record { read_buf_min_size = least; read_buf_max_size = most })
              protocol
            ≡ ok conn)
          × IsNew id protocol conn
    pub close_law :
        (conn : Connection) (r : Reactor)
        → IsRegistry r
        → IsRegistry (close_callback conn r)
          × (find conn.id (close_callback conn r).connections ≡ none)
          × ((k : ℕ)
              → conn.id ≢ k
              → find k (close_callback conn r).connections ≡ find k r.connections)

  abbrev pub connection_class : ConnectionClass
  connection_class = record {
    new = make_connection;
    alloc_callback = on_alloc;
    close_callback = on_close;
    read_callback = on_read reserve_limit;
    request = parse_request reserve_limit;
    new_law = make_connection-IsNew;
    close_law = on_close_unregisters;
  }

-- The static functions, which libuv calls.
pub record ReactorCallbacks : Type 0 where
  pub connect : Libuv → ℤ → ℤ → Reactor → Outcome (Reactor × List Call)
  pub stop_signal : Reactor → Outcome Reactor
  pub reply_signal : Reactor → Outcome (Reactor × List Call)
  pub write_done : ℕ → ℤ → Reactor → Reactor
  pub timer : Reactor → Reactor
  pub reply_law :
      (r : Reactor) (k : ℕ)
      → IsRegistry r
      → IsWired r
      → (r' : Reactor) × (cs : List Call) × (reply_signal r ≡ ok (r', cs))
        × (r'.replies ≡ [])
        × (r'.connections ≡ r.connections)
        × (written k cs ≡ if_open (find k r.connections) (replies_to k r.replies))

abbrev pub reactor_callbacks : ReactorCallbacks
reactor_callbacks = record {
  connect = on_connect;
  stop_signal = on_stop;
  reply_signal = on_reply;
  write_done = on_write;
  timer = on_timer;
  reply_law = on_reply-written;
}

-- The functions that the program, the workers and the connections call.
pub record ReactorClass : Type 0 where
  pub new : Libuv → ReactorOptions → Outcome Reactor
  pub delete : Libuv → Reactor → Outcome (Reactor × List LoopCall)
  pub send_replies : List Reply → Reactor → Outcome Reactor
  pub stop : Reactor → Outcome Reactor
  pub notify_loop : Reactor → Outcome Reactor
  pub new_client : Libuv → Reactor → Outcome (ℕ × Connection × Reactor)
  pub send_one : Reactor → Reply → Reactor × List Call
  pub send_waiting : Reactor → Reactor × List Call
  pub dispatch_tasks : WorkerPool → ℕ → List Task → ResponseBuilder → Outcome WorkerPool
  pub delete_law :
      (uv : Libuv) (r : Reactor)
      → IsWired r
      → r.joinable ≡ true
      → (r' : Reactor) × (delete uv r ≡ ok (r', delete_loop uv.loop_close (some (loop_handles r))))
        × (r'.loop_stopped ≡ true)
        × (r'.joinable ≡ false)
        × (r'.stop_pending ≡ false)
        × (r'.connections ≡ r.connections)
  pub send_law :
      (rs : List Reply) (r : Reactor)
      → IsWired r
      → send_replies rs r ≡ ok (record r { replies = r.replies ++ rs; reply_pending = true })

abbrev pub reactor_class : ReactorClass
reactor_class = record {
  new = make_reactor;
  delete = delete_reactor;
  send_replies = send;
  stop = stop_reactor;
  notify_loop = notify;
  new_client = create_client;
  send_one = send_reply;
  send_waiting = send_pending;
  dispatch_tasks = dispatch;
  delete_law = delete_reactor_stops;
  send_law = send_lem;
}
