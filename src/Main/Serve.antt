-- ===== src/Main/Serve.antt =====
-- The program of main.cpp, from its start to the answers to its first client.
use vector_engine.Common.{
  ℕ, ◌+◌, ◌^◌, ◌<◌, ◌≤◌, ◌≡◌, refl, sym, ap, subst, ◌∙◌, inl, pos, List, [], ◌∷◌, ◌++◌, ◌*◌, map,
  Bytes, All, arith,
}
use vector_engine.Decimal.{size_mod}
use vector_engine.Errors.{ok, ok-injective, ok_pair-injective}
use vector_engine.Resp.Command.{RespCommand}
use vector_engine.Resp.Parser.Front.{IsStream}
use vector_engine.Task.{TaskOutput, create}
use vector_engine.Protocol.{resp_response_builder}
use vector_engine.Connection.Stream.{received, IsNew}
use vector_engine.Connection.Requests.{IsSmallRead}
use vector_engine.Worker.{WorkerPool}
use vector_engine.Worker.Answers.{answers}
use vector_engine.Uv.{Libuv, enable_keepalive}
use vector_engine.Reactor.{Reactor, ReactorOptions, Call, read_start, accepted, on_connect}
use vector_engine.Reactor.Registry.{on_connect_registers}
use vector_engine.Reactor.Kept.{on_connect_limit}
use vector_engine.Reactor.Send.{written}
use vector_engine.Logger.{Spdlog, Logger, default_logger_options}
use vector_engine.System.Reading.{accepted-IsReading}
use vector_engine.System.{reading, System, Steps, done}
use vector_engine.System.Connect.{
  on_connect-NothingYet, started, started-IsSound, connects-NothingYet,
}
use vector_engine.System.Sound.{IsSound, Steps-IsSound}
use vector_engine.System.Progress.{system_serves}
use vector_engine.Main.{tcp_options, connection_options, options, start}
use vector_engine.Main.Start.{Willing, first_reactor, first_reactor-IsWired, start_lem}

-- The threads when the first client has connected: the workers are idle.
abbrev pub connected : WorkerPool → Reactor → System
connected pool r = record {
  reactor = r;
  pool = pool;
  hands = λ i. [];
  calls = read_start 0 ∷ [];
  dispatched = [];
  reads = λ i. [];
}

-- If the logger opens, libuv makes its loop, its two signals and a socket that listens, and
-- keepalive can be set, then the program starts as main.cpp says, its connect callback starts to
-- read from the first client that `uv_accept` takes, and, for every stream of well-formed
-- requests, each within the limits on its arguments and of at most `most` bytes, cut into reads
-- anywhere, each of no more bytes than were suggested and than 20 MiB leave beside `most`, the
-- loop and the workers can take steps that make exactly these reads, after which exactly the
-- answers to the requests were written to the client, in order.
pub start-serves :
    (to_mcp_reply : TaskOutput → Bytes) (uv : Libuv) (s : Spdlog) (l : s.SpdLogger)
    (reserve_limit most n : ℕ) (cs : List RespCommand) (rs : List (ℕ × Bytes))
    → s.rotating_logger default_logger_options.path default_logger_options.max_size
        default_logger_options.max_files
      ≡ ok l
    → Willing uv
    → enable_keepalive uv tcp_options.keepalive ≡ ok tt
    → most < size_mod
    → IsStream reserve_limit most cs (received rs)
    → All (IsSmallRead most (20 * 1024 * 1024)) rs
    → (logger : Logger s) × (pool : WorkerPool) × (r r' : Reactor) × (served : System) × (start uv s
        ≡ ok (logger, pool, r))
      × (on_connect uv (pos n) (pos 0) r ≡ ok (r', read_start 0 ∷ []))
      × Steps to_mcp_reply reserve_limit 0 (connected pool r') served
      × (served.reads 0 ≡ rs)
      × (written 0 served.calls ≡ answers to_mcp_reply resp_response_builder (map create cs))
unfolding received accepted reading
start-serves to_mcp_reply uv s l reserve_limit most n cs rs opened w alive small stream reads =
    let (logger, pool, e, ready) = start_lem uv s l opened w in
    let wired = first_reactor-IsWired uv s in
    let (r', e', fresh, new) =
      on_connect-NothingYet uv n (pos 0) (first_reactor uv s) 3 pool ready (omega arith) tt wired
        refl (omega arith) (omega arith) (omega arith) (omega arith) alive in
    let limit =
      on_connect_limit uv n (pos 0) (first_reactor uv s) tt wired (omega arith) (omega arith)
        (omega arith) (omega arith) alive e' fresh.opened in
    let (served, steps, all_read, sent) =
      system_serves to_mcp_reply reserve_limit 0 most connection_options.read_buf_max_size cs
        (received rs) rs (connected pool r') (connected pool r') fresh new limit refl small stream
        (done (connected pool r')) refl tt reads in
    (logger, pool, first_reactor uv s, r', served, e, e', steps, all_read, sent)

-- Once the program has started, the threads are in order.
pub start-IsSound :
    (uv : Libuv) (s : Spdlog) (l : s.SpdLogger) {logger : Logger s} {pool : WorkerPool}
    {r : Reactor}
    → s.rotating_logger default_logger_options.path default_logger_options.max_size
        default_logger_options.max_files
      ≡ ok l
    → Willing uv
    → start uv s ≡ ok (logger, pool, r)
    → IsSound options (started pool r)
start-IsSound uv s l opened w e =
    let (_, _, e', ready) = start_lem uv s l opened w in
    let same = ok-injective (sym e' ∙ e) in
    subst (λ (q : Logger s × WorkerPool × Reactor). IsSound options (started q.1 q.2)) same
      (started-IsSound options 3 _ (first_reactor uv s) ready (omega arith) (record {
        same_opts = refl;
        running = refl;
        registry = tt;
        wired = first_reactor-IsWired uv s;
        signalled = inl refl;
        unreplied = λ k le. refl;
      }))

-- If the logger opens and libuv makes its loop, its two signals and a socket that listens, then
-- in every state that the loop and the workers reach once the program of main.cpp has started:
-- the options are those of main.cpp, the thread of the loop runs, every connection stands in the
-- map under its own id, which was given out, the handles of the reactor are wired to it, a signal
-- is on its way if replies wait, every worker runs and holds no stop marker, and nothing is held,
-- waiting, dispatched, read or written for an id that was not given out yet.
pub reached-IsSound :
    (to_mcp_reply : TaskOutput → Bytes) (uv : Libuv) (s : Spdlog) (l : s.SpdLogger)
    (reserve_limit j : ℕ) (s₁ : System) {logger : Logger s} {pool : WorkerPool} {r : Reactor}
    → s.rotating_logger default_logger_options.path default_logger_options.max_size
        default_logger_options.max_files
      ≡ ok l
    → Willing uv
    → start uv s ≡ ok (logger, pool, r)
    → Steps to_mcp_reply reserve_limit j (started pool r) s₁
    → IsSound options s₁
reached-IsSound to_mcp_reply uv s l reserve_limit j s₁ opened w e before =
    Steps-IsSound options to_mcp_reply reserve_limit j before (start-IsSound uv s l opened w e)

-- Let the logger open, libuv make its loop, its two signals and a socket that listens, and
-- keepalive be settable. Then, when the program of main.cpp has started, and whatever the loop
-- and the workers have done for any clients since, with fewer than 2^64 - 1 connections made: if
-- a client connects and, whatever they do from then on without closing its connection, its bytes
-- so far are the front of a stream of well-formed requests, each within the limits on its
-- arguments and of at most `most` bytes, and its reads bring no more bytes than were suggested
-- for them and than 20 MiB leave beside `most`, then, however the rest of the stream is cut into
-- such reads, there are further steps that take them, after which exactly the answers to all
-- requests of the stream were written to the client, in order.
pub client_served :
    (to_mcp_reply : TaskOutput → Bytes) (uv : Libuv) (s : Spdlog) (l : s.SpdLogger)
    (reserve_limit j most n : ℕ) (cs : List RespCommand) (p : Bytes) (rs : List (ℕ × Bytes))
    (s₁ s₂ : System) {logger : Logger s} {pool : WorkerPool} {r r' : Reactor} {accepts : List Call}
    → s.rotating_logger default_logger_options.path default_logger_options.max_size
        default_logger_options.max_files
      ≡ ok l
    → Willing uv
    → enable_keepalive uv tcp_options.keepalive ≡ ok tt
    → start uv s ≡ ok (logger, pool, r)
    → Steps to_mcp_reply reserve_limit j (started pool r) s₁
    → s₁.reactor.connection_cnt + 1 < 2 ^ 64
    → on_connect uv (pos n) (pos 0) s₁.reactor ≡ ok (r', accepts)
    → Steps to_mcp_reply reserve_limit s₁.reactor.connection_cnt
        (record s₁ { reactor = r'; calls = s₁.calls ++ accepts })
        s₂
    → most < size_mod
    → IsStream reserve_limit most cs p
    → received (s₂.reads s₁.reactor.connection_cnt) ++ received rs ≡ p
    → All (IsSmallRead most (20 * 1024 * 1024)) (s₂.reads s₁.reactor.connection_cnt)
    → All (IsSmallRead most (20 * 1024 * 1024)) rs
    → (s₃ : System) × Steps to_mcp_reply reserve_limit s₁.reactor.connection_cnt s₂ s₃
      × (s₃.reads s₁.reactor.connection_cnt ≡ s₂.reads s₁.reactor.connection_cnt ++ rs)
      × (written s₁.reactor.connection_cnt s₃.calls
          ≡ answers to_mcp_reply resp_response_builder (map create cs))
client_served to_mcp_reply uv s l reserve_limit j most n cs p rs s₁ s₂ opened w alive e before
      unwrapped joined after small stream whole past to_come =
    let sound = reached-IsSound to_mcp_reply uv s l reserve_limit j s₁ opened w e before in
    let same = sym sound.good.same_opts in
    let some_size =
      subst (λ (o : ReactorOptions). 0 < o.connection_opts.read_buf_min_size) same (omega arith) in
    let le =
      subst
        (λ (o : ReactorOptions).
          o.connection_opts.read_buf_min_size ≤ o.connection_opts.read_buf_max_size)
        same (omega arith) in
    let bounded =
      subst (λ (o : ReactorOptions). o.connection_opts.read_buf_max_size ≤ 2 ^ 63) same
        (omega arith) in
    let alive' =
      subst (λ (o : ReactorOptions). enable_keepalive uv o.tcp_opts.keepalive ≡ ok tt) same alive in
    let (fresh, new) =
      connects-NothingYet options s₁ uv n (pos 0) _ _ sound unwrapped some_size le bounded alive'
        joined in
    let (_, _, accepting, _, _, _, _, _, _) =
      on_connect_registers uv n (pos 0) s₁.reactor sound.good.registry sound.good.wired unwrapped
        some_size le bounded alive' in
    let (_, joins) = ok_pair-injective (sym joined ∙ accepting) in
    let limit =
      on_connect_limit uv n (pos 0) s₁.reactor sound.good.registry sound.good.wired unwrapped
        some_size le bounded alive' joined fresh.opened in
    system_serves to_mcp_reply reserve_limit s₁.reactor.connection_cnt most
      connection_options.read_buf_max_size cs p rs _ s₂ fresh
      (subst (λ (o : ReactorOptions). IsNew s₁.reactor.connection_cnt o.protocol fresh.conn)
        (sym same) new)
      (limit ∙ ap (λ (o : ReactorOptions). o.connection_opts.read_buf_max_size) (sym same))
      (accepted-IsReading s₁.reactor.connection_cnt s₁.calls _ joins) small stream after whole past
      to_come
