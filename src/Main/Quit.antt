-- ===== src/Main/Quit.antt =====
-- The end of the program of main.cpp, whatever its threads are doing.
use vector_engine.Common.{ℕ, ◌≡◌, ◌≢◌, ◌<◌, true, false, none, some, List, [], ◌++◌}
use vector_engine.Handle.{LoopCall, delete_loop}
use vector_engine.Worker.{WorkerPool}
use vector_engine.Uv.{Libuv}
use vector_engine.Reactor.{Reactor, loop_handles}
use vector_engine.Logger.{Logger}
use vector_engine.System.{System}
use vector_engine.System.Load.{queue_of}

-- No worker has a batch in its queue or at hand.
abbrev pub AreFree : System → Type 0
AreFree s = (i : ℕ) → i < s.pool.size → (s.hands i ≡ []) × (queue_of (s.pool.workers i) ≡ [])

-- Some worker has a batch in its queue or at hand.
abbrev pub IsWorking : System → Type 0
IsWorking s = (i : ℕ) × (i < s.pool.size) × (s.hands i ++ queue_of (s.pool.workers i) ≢ [])

-- The reactor is gone: its loop is stopped and closed with every handle on it, its thread joined,
-- the connections still in the map; and the pool has no worker left.
pub record Ended (uv : Libuv) (s : System) (o : WorkerPool × Reactor × List LoopCall) : Type 0 where
  pub halted : o.1.loop_stopped ≡ true
  pub joined : o.1.joinable ≡ false
  pub same_connections : o.1.connections ≡ s.reactor.connections
  pub released : o.2 ≡ delete_loop uv.loop_close (some (loop_handles s.reactor))
  pub gone : (i : ℕ) → i < s.pool.size → o.0.workers i ≡ none
