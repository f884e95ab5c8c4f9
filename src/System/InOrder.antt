-- ===== src/System/InOrder.antt =====
-- The invariant of the threads of reactor.cpp and worker.cpp, for one connection.
use vector_engine.Common.{ℕ, ◌%◌, ◌<◌, ◌≡◌, ◌≢◌, [], ◌++◌, Bytes, some}
use vector_engine.Common.Maps.{find}
use vector_engine.Task.{TaskOutput}
use vector_engine.Connection.{Connection}
use vector_engine.Worker.{Worker}
use vector_engine.Reactor.Registry.{IsRegistry, IsWired}
use vector_engine.Reactor.Send.{written, replies_to}
use vector_engine.System.{System}
use vector_engine.System.Load.{mine, load}

module _ (to_mcp_reply : TaskOutput → Bytes) (k : ℕ) where
  -- What was written to the connection `k`, what waits for it in the reactor, and what the worker
  -- that its id picks holds for it, are one behind another the answers to what it dispatched.
  pub record InOrder (conn : Connection) (s : System) : Type 0 where
    pub registry : IsRegistry s.reactor
    pub wired : IsWired s.reactor
    pub opened : find k s.reactor.connections ≡ some conn
    pub staffed : 0 < s.pool.size
    pub working : (i : ℕ) → i < s.pool.size → (w : Worker) × (s.pool.workers i ≡ some w)
    pub elsewhere :
        (i : ℕ) → i ≢ k % s.pool.size → load to_mcp_reply k s.hands s.pool.workers i ≡ []
    pub order :
        written k s.calls
          ++ (replies_to k s.reactor.replies
              ++ load to_mcp_reply k s.hands s.pool.workers (k % s.pool.size))
        ≡ mine to_mcp_reply k s.dispatched
