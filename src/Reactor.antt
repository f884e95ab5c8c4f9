-- ===== src/Reactor.antt =====
-- reactor.h and reactor.cpp: the reactor owns the connections and the replies that wait for them.
-- `Outcome` stands for what a callback throws. A `uv_tcp_t*` in the map is the connection that its
-- `data` points to. The calls on libuv are values, in the order in which they are made.
pub mod Registry
pub mod Send
pub mod Round
pub mod Kept
pub mod Signals
pub mod Interface
use vector_engine.Common.{
  ℕ, ◌+◌, ◌%◌, ◌^◌, ℤ, pos, negsuc, List, [], ◌∷◌, ◌++◌, Option, none, some, Bytes, zero, suc, Bool,
  true, false, length, if◌then◌else◌,
}
use vector_engine.Common.Maps.{find, emplace, erase, update}
use vector_engine.Errors.{Outcome, ok, throws, undefined, diverges, engine, standard, ◌>>=◌}
use vector_engine.Task.{Task}
use vector_engine.Protocol.{ProtocolType, ResponseBuilder}
use vector_engine.Connection.{ConnectionOptions, Connection, make_connection}
use vector_engine.Worker.{BatchTask, batch, Reply, Worker, WorkerPoolSPtr, submit, fetch}
use vector_engine.Handle.{
  tcp_kind, handle_kind, unspecified, LoopCall, delete_loop, Handle, Owner, of_reactor,
  of_connection, of_context, UPtr, get_data,
}
use vector_engine.Uv.{TcpOptions, Libuv, make_loop, make_async, make_tcp_server, make_tcp_client}

pub record ReactorOptions : Type 0 where
  pub tcp_opts : TcpOptions
  pub connection_opts : ConnectionOptions
  pub protocol : ProtocolType

-- A write in progress: `base` and `len` are those of its `uv_buf_t`, and `base` points to the
-- bytes of the reply.
pub record ReplyContext : Type 0 where
  pub reply : Reply
  pub base : Bytes
  pub len : ℕ

unfoldable pub make_reply_context : Reply → ReplyContext
make_reply_context r = record { reply = r; base = r.reply; len = length r.reply }

-- The fields of the class, and what its calls have made of libuv's loop: the contexts that are on
-- the heap, by their addresses, the signals that are pending, whether the loop was stopped and
-- whether its thread can be joined.
pub record Reactor : Type 0 where
  pub opts : ReactorOptions
  pub connection_cnt : ℕ
  pub connections : List (ℕ × Connection)
  pub replies : List Reply
  pub server : UPtr Handle
  pub stop_async : UPtr Handle
  pub reply_async : UPtr Handle
  pub next_context : ℕ
  pub contexts : List (ℕ × ReplyContext)
  pub stop_pending : Bool
  pub reply_pending : Bool
  pub loop_stopped : Bool
  pub joinable : Bool

-- A call on the handle of the connection with that id.
pub data Call : Type 0 where
  read_start : ℕ → Call
  handle_close : ℕ → Call
  write : ℕ → Bytes → Call

-- The constructor. The thread of the loop starts at its end, with a timer whose callback does
-- nothing.
unfoldable pub make_reactor : Libuv → ReactorOptions → Outcome Reactor
make_reactor uv opts = do
  _ ← make_loop uv
  server ← make_tcp_server uv opts.tcp_opts (some of_reactor)
  stop_async ← make_async uv (some of_reactor)
  reply_async ← make_async uv (some of_reactor)
  ok (record {
    opts = opts;
    connection_cnt = 0;
    connections = [];
    replies = [];
    server = some server;
    stop_async = some stop_async;
    reply_async = some reply_async;
    next_context = 0;
    contexts = [];
    stop_pending = false;
    reply_pending = false;
    loop_stopped = false;
    joinable = true;
  })

unfoldable pub check_owner : Option Owner → Outcome {0} Unit
check_owner (some of_reactor) = ok tt
check_owner (some (of_connection id)) = undefined
check_owner (some (of_context address)) = undefined
check_owner none = undefined

-- `get_data<Reactor>` and the assertions before and behind it, at a handle of the reactor.
unfoldable pub owned : UPtr Handle → Outcome {0} Unit
unfolding check_owner
owned h = get_data h >>= check_owner

-- `_connection_cnt++`, of 64 bits.
unfoldable pub connection_id : Reactor → ℕ × Reactor
connection_id r = (r.connection_cnt, record r { connection_cnt = (r.connection_cnt + 1) % 2 ^ 64 })

unfoldable pub create_client : Libuv → Reactor → Outcome (ℕ × Connection × Reactor)
unfolding connection_id
create_client uv r = do
  conn ← make_connection (connection_id r).0 r.opts.connection_opts r.opts.protocol
  _ ← make_tcp_client uv r.opts.tcp_opts.keepalive (some (of_connection (connection_id r).0))
  ok (
    (connection_id r).0,
    conn,
    record (connection_id r).1 { connections = emplace (connection_id r).0 conn r.connections },
  )

-- The result of `uv_accept` decides between reading and closing.
unfoldable pub accepted : ℕ → ℤ → List Call
accepted id (pos zero) = read_start id ∷ []
accepted id (pos (suc n)) = handle_close id ∷ []
accepted id (negsuc n) = handle_close id ∷ []

-- `_on_connect`, with its status and the results of `uv_accept` and of the calls on libuv.
unfoldable pub on_connect : Libuv → ℤ → ℤ → Reactor → Outcome (Reactor × List Call)
unfolding owned
on_connect uv (negsuc status) accept_err r = ok (r, [])
on_connect uv (pos status) accept_err r = do
  _ ← owned r.server
  (id, conn, r') ← create_client uv r
  ok (record r' { connections = emplace id conn r'.connections }, accepted id accept_err)

unfoldable pub remove_connection : ℕ → Reactor → Reactor
remove_connection id r = record r { connections = erase id r.connections }

-- `Connection::on_close`.
unfoldable pub on_close : Connection → Reactor → Reactor
unfolding remove_connection
on_close conn r = remove_connection conn.id r

-- The assertion on the handle of a signal.
unfoldable pub signal : UPtr Handle → Reactor → Outcome Reactor
signal none r = undefined
signal (some h) r = ok r

-- `_notify`: `uv_async_send` of a signal that is pending already changes nothing.
unfoldable pub notify : Reactor → Outcome Reactor
unfolding signal
notify r = signal r.reply_async (record r { reply_pending = true })

-- `stop`.
unfoldable pub stop_reactor : Reactor → Outcome Reactor
unfolding signal
stop_reactor r = signal r.stop_async (record r { stop_pending = true })

-- `send`, which a worker calls.
unfoldable pub send : List Reply → Reactor → Outcome Reactor
unfolding notify
send rs r = notify (record r { replies = r.replies ++ rs })

-- `_on_stop`, with `uv_stop`.
unfoldable pub on_stop : Reactor → Outcome Reactor
unfolding owned
on_stop r = do _ ← owned r.stop_async; ok (record r { stop_pending = false; loop_stopped = true })

-- A client that is not in the map any more gets nothing. The context of a write is put on the
-- heap; the request points to it.
unfoldable pub write_to : Option Connection → Reply → Reactor → Reactor × List Call
unfolding make_reply_context
write_to none reply r = (r, [])
write_to (some client) reply r = (
  record r {
    next_context = r.next_context + 1;
    contexts = (r.next_context, make_reply_context reply) ∷ r.contexts;
  },
  write client.id (make_reply_context reply).base ∷ [],
)

-- `_send` of one reply.
unfoldable pub send_reply : Reactor → Reply → Reactor × List Call
unfolding write_to
send_reply r reply = write_to (find reply.connection_id r.connections) reply r

unfoldable pub send_each : Reactor → List Reply → Reactor × List Call
unfolding send_reply
send_each r [] = (r, [])
send_each r (x ∷ xs) =
    let (r', cs) = send_reply r x in let (r'', ds) = send_each r' xs in (r'', cs ++ ds)

-- `_send` of all replies: they are swapped for an empty vector, and sent in order.
unfoldable pub send_pending : Reactor → Reactor × List Call
unfolding send_each
send_pending r = send_each (record r { replies = [] }) r.replies

-- `_on_reply`.
unfoldable pub on_reply : Reactor → Outcome (Reactor × List Call)
unfolding owned send_pending
on_reply r = do _ ← owned r.reply_async; ok (send_pending (record r { reply_pending = false }))

-- `_on_write` of the write whose context has that address: a failed write keeps it.
unfoldable pub on_write : ℕ → ℤ → Reactor → Reactor
on_write address (negsuc status) r = r
on_write address (pos status) r = record r { contexts = erase address r.contexts }

unfoldable pub on_timer : Reactor → Reactor
on_timer r = r

-- `join` returns when the loop has handled the signal and its thread has ended.
unfoldable pub join_loop : Reactor → Outcome Reactor
unfolding on_stop
join_loop r = if r.joinable then (on_stop r >>= λ r'. ok (record r' { joinable = false })) else ok r

abbrev client_handles : List (ℕ × Connection) → List (UPtr Handle)
client_handles [] = []
client_handles ((id, conn) ∷ m) =
    some (record { kind = tcp_kind; family = unspecified; user_data = some (of_connection id) })
    ∷ client_handles m

-- The handles on the loop: those of the reactor, its timer, and those of the connections.
unfoldable pub loop_handles : Reactor → List (UPtr Handle)
loop_handles r =
    r.server
    ∷ r.stop_async
    ∷ r.reply_async
    ∷ some (record { kind = handle_kind; family = unspecified; user_data = none })
    ∷ client_handles r.connections

-- The destructor. The member `_loop` is destroyed first of all, by its deleter.
unfoldable pub delete_reactor : Libuv → Reactor → Outcome (Reactor × List LoopCall)
unfolding stop_reactor join_loop loop_handles
delete_reactor uv r = do
  stopped ← stop_reactor r
  joined ← join_loop stopped
  ok (joined, delete_loop uv.loop_close (some (loop_handles joined)))

-- The `try` statement of `dispatch`: an `Error` drops the tasks.
unfoldable pub dropped : WorkerPoolSPtr → Outcome WorkerPoolSPtr → Outcome WorkerPoolSPtr
dropped pool (ok p) = ok p
dropped pool (throws (engine e)) = ok pool
dropped pool (throws standard) = throws standard
dropped pool undefined = undefined
dropped pool diverges = diverges

unfoldable pub enqueue : WorkerPoolSPtr → BatchTask → ℕ × Worker → Outcome WorkerPoolSPtr
enqueue pool task (i, w) =
    ok (record pool { workers = update pool.workers i (some (submit w task)) })

unfoldable pub dispatch : WorkerPoolSPtr → ℕ → List Task → ResponseBuilder → Outcome WorkerPoolSPtr
unfolding dropped enqueue
dispatch pool id tasks builder =
    dropped pool (fetch pool id >>= enqueue pool (batch id tasks builder))
