-- ===== src/Main/Start.antt =====
-- The start and the end of the program (main.cpp), when what it calls succeeds and when it throws.
use vector_engine.Common.{
  ℕ, ◌≡◌, refl, pos, negsuc, ◌++◌, true, false, List, [], ◌∷◌, Bytes, codes, arith, some,
  Bool-cases, inl, inr,
}
use vector_engine.Errors.{ok}
use vector_engine.Handle.{Handle, async_kind, unspecified, of_reactor}
use vector_engine.Handle.{get_data}
use vector_engine.Task.{TaskOutput}
use vector_engine.System.{System}
use vector_engine.Worker.{WorkerPool}
use vector_engine.Worker.Pool.{IsReady, make_pool-IsReady}
use vector_engine.Uv.{Libuv, uv_error, err_msg, check_uv, make_loop, make_async}
use vector_engine.Uv.Listen.{Listens, server_handle, make_tcp_server_iff}
use vector_engine.Reactor.{Reactor, make_reactor, owned}
use vector_engine.Reactor.Registry.{IsRegistry, IsWired}
use vector_engine.Logger.{
  Spdlog, Logger, info, init, log, level_of, instance_logger, default_logger_options,
}
use vector_engine.Main.{tcp_options, options, start, main}

-- libuv makes its loop, its signals and a socket that listens.
pub record Willing (uv : Libuv) : Type 0 where
  pub looped : uv.loop_init ≡ pos 0
  pub signals : uv.async_init ≡ pos 0
  pub listens : Listens uv tcp_options

module _ (uv : Libuv) (s : Spdlog) where
  initialised :
      (l : s.SpdLogger)
      → s.rotating_logger default_logger_options.path default_logger_options.max_size
          default_logger_options.max_files
        ≡ ok l
      → (l' : s.SpdLogger) × (init s default_logger_options (instance_logger s)
          ≡ ok (record { logger = some l' }))
  unfolding init level_of
  initialised l e = (s.set_pattern (s.set_level l info) default_logger_options.pattern, rw e)

  logged :
      (l : s.SpdLogger) (message : Bytes)
      → (l' : Logger s) × (log s info message (record { logger = some l }) ≡ ok l')
  unfolding log
  logged l message = elim (Bool-cases (s.compiled info)) [
    | inl on ↦ (record { logger = some (s.call l info message) }, rw on)
    | inr off ↦ (record { logger = some l }, rw off)
  ]

  make_loop-ok : Willing uv → make_loop uv ≡ ok tt
  unfolding make_loop check_uv
  make_loop-ok w = rw w.looped

  -- A signal of the reactor.
  abbrev signal_handle : Handle
  signal_handle = record { kind = async_kind; family = unspecified; user_data = some of_reactor }

  make_async-ok : Willing uv → make_async uv (some of_reactor) ≡ ok signal_handle
  unfolding make_async check_uv
  make_async-ok w = rw w.signals

  abbrev pub first_reactor : Reactor
  first_reactor = record {
    opts = options;
    connection_cnt = 0;
    connections = [];
    replies = [];
    server = some (server_handle tcp_options (some of_reactor));
    stop_async = some signal_handle;
    reply_async = some signal_handle;
    next_context = 0;
    contexts = [];
    stop_pending = false;
    reply_pending = false;
    loop_stopped = false;
    joinable = true;
  }

  make_reactor-ok : Willing uv → make_reactor uv options ≡ ok first_reactor
  unfolding make_reactor
  make_reactor-ok w = rw (
    make_loop-ok w,
    (make_tcp_server_iff uv tcp_options (some of_reactor)).1 w.listens,
    make_async-ok w,
  )

  pub first_reactor-IsWired : IsWired first_reactor
  unfolding owned get_data
  first_reactor-IsWired = record { server = refl; stop_async = refl; reply_async = refl }

  pub start_lem :
      (l : s.SpdLogger)
      → s.rotating_logger default_logger_options.path default_logger_options.max_size
          default_logger_options.max_files
        ≡ ok l
      → Willing uv
      → (logger : Logger s) × (pool : WorkerPool) × (start uv s ≡ ok (logger, pool, first_reactor))
        × IsReady 3 pool
  unfolding start
  start_lem l opened w =
      let (pool, e, ready) = (make_pool-IsReady 3 (omega arith)).1 (omega arith) in
      let (l', e') = initialised l opened in
      let (logger, e'') = logged l' (codes "vector engine started") in
      (logger, pool, rw (e', e, make_reactor-ok w, e''), ready)

  -- If the logger opens and libuv makes its loop, its two signals and a socket that listens, the
  -- program starts: with three workers, whose queues are empty, with no connection and no reply,
  -- with the handles of the reactor wired to it, and with the thread of the loop running.
  pub start-ok :
      (l : s.SpdLogger)
      → s.rotating_logger default_logger_options.path default_logger_options.max_size
          default_logger_options.max_files
        ≡ ok l
      → Willing uv
      → (logger : Logger s) × (pool : WorkerPool) × (r : Reactor) × (start uv s
          ≡ ok (logger, pool, r))
        × IsReady 3 pool
        × IsRegistry r
        × IsWired r
        × (r.replies ≡ [])
        × (r.joinable ≡ true)
  start-ok l opened w =
      let (logger, pool, e, ready) = start_lem l opened w in
      (logger, pool, first_reactor, e, ready, tt, first_reactor-IsWired, refl, refl)

  -- If the logger opens but libuv makes no loop, `main` returns and prints the name and the text
  -- of libuv's error and what failed.
  pub main-reports :
      (l : s.SpdLogger) (to_mcp_reply : TaskOutput → Bytes)
      (run : WorkerPool → Reactor → System × List Bytes) (input : List Bytes)
      → s.rotating_logger default_logger_options.path default_logger_options.max_size
          default_logger_options.max_files
        ≡ ok l
      → (n : ℕ) → uv.loop_init ≡ negsuc n
      → main uv s to_mcp_reply run input
        ≡ ok (
            ((uv.err_name (negsuc n) ++ (codes ": " ++ uv.strerror (negsuc n)))
              ++ codes ", failed to make uv loop")
            ∷ [])
  unfolding main start make_reactor make_loop check_uv uv_error err_msg
  main-reports l to_mcp_reply run input opened n failed =
      let (pool, e, ready) = (make_pool-IsReady 3 (omega arith)).1 (omega arith) in
      let (l', e') = initialised l opened in rw (e', e, failed) refl
