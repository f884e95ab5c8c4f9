-- ===== src/Main.antt =====
-- main.cpp: the options that the program fixes, how it starts, and how it ends.
pub mod Start
pub mod Serve
pub mod Quit
pub mod Survive
use vector_engine.Common.{ℕ, ◌*◌, pos, true, List, [], ◌∷◌, Bytes, codes, if◌then◌else◌}
use vector_engine.Errors.{
  Error, Outcome, ok, throws, undefined, diverges, engine, standard, what, ◌>>=◌,
}
use vector_engine.Str.{bytes_eq}
use vector_engine.Protocol.{resp}
use vector_engine.Connection.{ConnectionOptions}
use vector_engine.Task.{TaskOutput}
use vector_engine.Handle.{LoopCall}
use vector_engine.System.{System}
use vector_engine.Worker.{Reply, WorkerPool, make_pool, stop_pool}
use vector_engine.Uv.{TcpOptions, Libuv}
use vector_engine.Reactor.{Reactor, ReactorOptions, make_reactor, stop_reactor, delete_reactor}
use vector_engine.Logger.{Spdlog, Logger, info, init, log, instance_logger, default_logger_options}

abbrev pub tcp_options : TcpOptions
tcp_options = record {
  ip = codes "127.0.0.1";
  port = pos 7777;
  backlog = pos 512;
  keepalive = 30;
  nodelay = true;
}

abbrev pub connection_options : ConnectionOptions
connection_options = record { read_buf_min_size = 64 * 1024; read_buf_max_size = 20 * 1024 * 1024 }

abbrev pub options : ReactorOptions
options = record { tcp_opts = tcp_options; connection_opts = connection_options; protocol = resp }

-- The lines of the input that are left behind the first "quit".
unfoldable pub wait_quit : List Bytes → List Bytes
wait_quit [] = []
wait_quit (line ∷ lines) =
    let rest = wait_quit lines in if bytes_eq line (codes "quit") then lines else rest

-- `Error`s are printed; no other exception is caught.
unfoldable pub report : Outcome (List Bytes) → Outcome (List Bytes)
report (ok printed) = ok printed
report (throws (engine e)) = ok (what e ∷ [])
report (throws standard) = throws standard
report undefined = undefined
report diverges = diverges

-- A worker that calls `Reactor::send` when the reactor has been destroyed.
unfoldable pub send_to_destroyed {ℓ} : {A : Type ℓ} → List (List Reply) → A → Outcome A
send_to_destroyed [] a = ok a
send_to_destroyed (rs ∷ sends) a = undefined

-- The end of the block, from the state of the threads at that time: the reactor is stopped and
-- destroyed, and then the pool, which nobody else holds, with what its workers still answer.
unfoldable pub finish :
    (TaskOutput → Bytes) → Libuv → System → Outcome (WorkerPool × Reactor × List LoopCall)
unfolding send_to_destroyed
finish to_mcp_reply uv s = do
  stopped ← stop_reactor s.reactor
  (ended, calls) ← delete_reactor uv stopped
  (sends, pool) ← stop_pool to_mcp_reply s.hands s.pool
  send_to_destroyed sends (pool, ended, calls)

module _ (uv : Libuv) (s : Spdlog) where
  -- The body of the `try` block up to its loop.
  unfoldable pub start : Outcome (Logger s × WorkerPool × Reactor)
  start = do
    logger ← init s default_logger_options (instance_logger s)
    pool ← make_pool 3
    reactor ← make_reactor uv options
    logger' ← log s info (codes "vector engine started") logger
    ok (logger', pool, reactor)

  -- `main` on the lines of its input: what is printed to std::cerr before it returns 0. `run` is
  -- what the loop and the workers have done with the pool and the reactor when the input ends, and
  -- what they have printed.
  unfoldable pub main :
      (TaskOutput → Bytes)
      → (WorkerPool → Reactor → System × List Bytes)
      → List Bytes
      → Outcome (List Bytes)
  unfolding start finish report wait_quit
  main to_mcp_reply run input = report (
      start >>= λ (logger, pool, reactor).
      let unread = wait_quit input in
      let (served, printed) = run pool reactor in finish to_mcp_reply uv served >>= λ _. ok printed)
