-- ===== src/System.antt =====
-- The threads of reactor.cpp and worker.cpp together: which steps they take, in any order. A
-- critical section and a callback are one step each; a worker fetches when its queue holds a batch,
-- and the reply callback runs when it was signalled. The history of the run, which no code keeps,
-- stands beside the state: the calls on libuv, the batches that were dispatched and the reads. No
-- step stops a worker: only the destructor of the pool does, after that of the reactor.
pub mod Load
pub mod Batches
pub mod InOrder
pub mod Serves
pub mod Held
pub mod Unmarked
pub mod Workers
pub mod Loop
pub mod Reads
pub mod Order
pub mod Idle
pub mod Drain
pub mod Good
pub mod Sound
pub mod Usable
pub mod Connect
pub mod Stream
pub mod Progress
pub mod Gone
pub mod Closed
pub mod Front
pub mod Reading
use vector_engine.Common.{
  ℕ, ◌+◌, ◌<◌, ◌≤◌, ◌^◌, ◌≡◌, ◌≢◌, Bool, true, false, if◌then◌else◌, ◌==◌, ℤ, pos, negsuc, List, [],
  ◌∷◌, ◌++◌, some, Bytes,
}
use vector_engine.Common.Maps.{find, assign, update}
use vector_engine.Errors.{Outcome, ok, ◌>>=◌}
use vector_engine.Task.{Task, TaskOutput}
use vector_engine.Protocol.{ResponseBuilder}
use vector_engine.Connection.{Connection, Effect, close, on_read}
use vector_engine.Connection.Dispatch.{StaysOpen}
use vector_engine.Connection.Read.{receive}
use vector_engine.Worker.{
  BatchTask, batch, stop_marker, Worker, WorkerPoolSPtr, fetch_tasks, run_batch_task,
}
use vector_engine.Uv.{Libuv, enable_keepalive}
use vector_engine.Reactor.{
  Reactor, Call, read_start, write, handle_close, on_connect, on_close, on_reply, on_write, send,
  dispatch,
}

-- `hands` are the batches that each worker has fetched and not yet answered, and `reads` the
-- reads of each connection, with the size that libuv suggested.
pub record System : Type 0 where
  pub reactor : Reactor
  pub pool : WorkerPoolSPtr
  pub hands : ℕ → List BatchTask
  pub calls : List Call
  pub dispatched : List BatchTask
  pub reads : ℕ → List (ℕ × Bytes)

-- What a read of a connection calls: `Reactor::dispatch`, and `uv::handle_close` of its handle.
unfoldable pub carry_out : List Effect → WorkerPoolSPtr → Outcome WorkerPoolSPtr
carry_out [] pool = ok pool
carry_out (Effect.dispatch id ts builder ∷ es) pool = dispatch pool id ts builder >>= carry_out es
carry_out (close ∷ es) pool = carry_out es pool

abbrev pub batches_of : List Effect → List BatchTask
batches_of [] = []
batches_of (Effect.dispatch id ts builder ∷ es) = batch id ts builder ∷ batches_of es
batches_of (close ∷ es) = batches_of es

abbrev pub closings : ℕ → List Effect → List Call
closings id [] = []
closings id (Effect.dispatch j ts builder ∷ es) = closings id es
closings id (close ∷ es) = handle_close id ∷ closings id es

-- Whether libuv reads from the handle of a connection behind some calls, if it did (`on`) before
-- them: from `uv_read_start` to `uv_close`.
unfoldable pub reading : ℕ → List Call → Bool → Bool
reading id [] on = on
reading id (read_start j ∷ cs) on = reading id cs (if j == id then true else on)
reading id (handle_close j ∷ cs) on = reading id cs (if j == id then false else on)
reading id (write j bytes ∷ cs) on = reading id cs on

abbrev pub IsReading : ℕ → List Call → Type 0
IsReading id cs = reading id cs false ≡ true

-- A connection object is changed in place.
abbrev pub assign_connection : ℕ → Connection → Reactor → Reactor
assign_connection id conn r = record r { connections = assign id conn r.connections }

module _ (to_mcp_reply : TaskOutput → Bytes) (reserve_limit k : ℕ) where
  -- A step in which the connection `k` is not closed.
  pub data Step : System → System → Type 0 where
    receives :
        (s : System) (id n : ℕ) (bytes : Bytes) (conn conn' : Connection) (es : List Effect)
        (p : WorkerPoolSPtr)
        → find id s.reactor.connections ≡ some conn
        → receive reserve_limit conn n bytes ≡ ok (conn', es)
        → (id ≡ k → StaysOpen es)
        → carry_out es s.pool ≡ ok p
        → IsReading id s.calls
        → Step s (record s {
          reactor = assign_connection id conn' s.reactor;
          pool = p;
          calls = s.calls ++ closings id es;
          dispatched = s.dispatched ++ batches_of es;
          reads = update s.reads id (s.reads id ++ (n, bytes) ∷ []);
        })
    ends :
        (s : System) (id n : ℕ) (conn conn' : Connection) (es : List Effect)
        → id ≢ k
        → find id s.reactor.connections ≡ some conn
        → on_read reserve_limit conn (negsuc n) ≡ ok (conn', es)
        → IsReading id s.calls
        → Step s (record s {
          reactor = assign_connection id conn' s.reactor;
          calls = s.calls ++ closings id es;
        })
    fetches :
        (s : System) (i : ℕ) (w : Worker)
        → s.pool.workers i ≡ some w
        → s.hands i ≡ []
        → w.tasks ≢ []
        → Step s (record s {
          pool = record s.pool { workers = update s.pool.workers i (some (fetch_tasks w).1) };
          hands = update s.hands i (fetch_tasks w).0;
        })
    answers_batch :
        (s : System) (i id : ℕ) (ts : List Task) (builder : ResponseBuilder) (bs : List BatchTask)
        (r : Reactor)
        → s.hands i ≡ batch id ts builder ∷ bs
        → send (run_batch_task to_mcp_reply id ts builder ∷ []) s.reactor ≡ ok r
        → Step s (record s { reactor = r; hands = update s.hands i bs })
    replies :
        (s : System) (r : Reactor) (cs : List Call)
        → s.reactor.reply_pending ≡ true
        → on_reply s.reactor ≡ ok (r, cs)
        → Step s (record s { reactor = r; calls = s.calls ++ cs })
    writes :
        (s : System) (address : ℕ) (status : ℤ)
        → Step s (record s { reactor = on_write address status s.reactor })
    connects :
        (s : System) (uv : Libuv) (n : ℕ) (accept_err : ℤ) (r : Reactor) (cs : List Call)
        → s.reactor.connection_cnt + 1 < 2 ^ 64
        → 0 < s.reactor.opts.connection_opts.read_buf_min_size
        → s.reactor.opts.connection_opts.read_buf_min_size
          ≤ s.reactor.opts.connection_opts.read_buf_max_size
        → s.reactor.opts.connection_opts.read_buf_max_size ≤ 2 ^ 63
        → enable_keepalive uv s.reactor.opts.tcp_opts.keepalive ≡ ok tt
        → on_connect uv (pos n) accept_err s.reactor ≡ ok (r, cs)
        → Step s (record s { reactor = r; calls = s.calls ++ cs })
    closes :
        (s : System) (conn : Connection)
        → conn.id ≢ k
        → Step s (record s { reactor = on_close conn s.reactor })

  pub data Steps : System → System → Type 0 where
    done : (s : System) → Steps s s
    more : {s s' s'' : System} → Step s s' → Steps s' s'' → Steps s s''
