-- ===== src/System/Connect.antt =====
-- A client that connects to reactor.cpp while the workers of worker.cpp are idle.
use vector_engine.Common.{
  ℕ, ◌+◌, ◌<◌, ◌≤◌, ◌^◌, ◌≡◌, refl, sym, subst, All, ap, ◌∙◌, ℤ, pos, List, [], ◌∷◌, ◌++◌, arith,
  ==_false, ltb, Bool-cases, inl, inr,
}
use vector_engine.Errors.{ok, ok_pair-injective}
use vector_engine.Connection.Stream.{IsNew}
use vector_engine.Worker.{BatchTask, batch, stop_marker, WorkerPool, make_worker}
use vector_engine.Worker.Pool.{IsReady}
use vector_engine.Uv.{Libuv, enable_keepalive}
use vector_engine.Reactor.{Reactor, ReactorOptions, Call, accepted, on_connect}
use vector_engine.Reactor.Registry.{IsRegistry, IsWired, on_connect_registers}
use vector_engine.Reactor.Send.{replies_to}
use vector_engine.Common.Maps.{find}
use vector_engine.System.{System}
use vector_engine.System.Batches.{of_connection, mine-of_connection}
use vector_engine.System.Good.{IsGood, on_connect-IsGood}
use vector_engine.System.Sound.{IsSound, IsGiven, calls-written}
use vector_engine.System.Unmarked.{IsBatch}
use vector_engine.System.Load.{queue_of, mine}
use vector_engine.System.Loop.{accepted-written}
use vector_engine.System.Order.{NothingYet}

-- The workers of a new pool hold nothing.
IsReady-queue_of :
    (num : ℕ) (pool : WorkerPool) → IsReady num pool → (i : ℕ) → queue_of (pool.workers i) ≡ []
unfolding make_worker
IsReady-queue_of num pool ready i = elim (Bool-cases (ltb i num)) [
  | inl below ↦ ap queue_of (ready.each i (ground (arith, below)))
  | inr above ↦ ap queue_of (ready.no_other i (ground (arith, above)))
]

-- The threads before anything happens.
abbrev pub started : WorkerPool → Reactor → System
started pool r = record {
  reactor = r;
  pool = pool;
  hands = λ i. [];
  calls = [];
  dispatched = [];
  reads = λ i. [];
}

pub started-IsSound :
    (o : ReactorOptions) (num : ℕ) (pool : WorkerPool) (r : Reactor)
    → IsReady num pool
    → 0 < num
    → IsGood o r
    → IsSound o (started pool r)
started-IsSound o num pool r ready wanted good = record {
  good = good;
  staff = record {
    staffed = omega (arith, ready.counted, wanted);
    working = λ i lt. (make_worker, ready.each i (omega (arith, lt, ready.counted)));
  };
  held = λ i. subst (All (IsGiven r.connection_cnt)) (sym (IsReady-queue_of num pool ready i)) tt;
  unread = λ k le. refl;
  undispatched = λ k le. refl;
  unwritten = λ k le. refl;
}

-- If the pool is new and has a worker, no reply waits in the reactor, every entry of its map
-- stands under its own id, its handles are wired to it, the limits of the read buffer are in
-- order, the keepalive option can be set and fewer than 2^64 - 1 connections were made, then a
-- connect callback without error returns, with the new connection open, empty and under the next
-- id, and with nothing read, dispatched, held, waiting or written for it.
pub on_connect-NothingYet :
    (uv : Libuv) (n : ℕ) (accept_err : ℤ) (r : Reactor) (num : ℕ) (pool : WorkerPool)
    → IsReady num pool
    → 0 < num
    → IsRegistry r
    → IsWired r
    → r.replies ≡ []
    → r.connection_cnt + 1 < 2 ^ 64
    → 0 < r.opts.connection_opts.read_buf_min_size
    → r.opts.connection_opts.read_buf_min_size ≤ r.opts.connection_opts.read_buf_max_size
    → r.opts.connection_opts.read_buf_max_size ≤ 2 ^ 63
    → enable_keepalive uv r.opts.tcp_opts.keepalive ≡ ok tt
    → (r' : Reactor) × (on_connect uv (pos n) accept_err r
        ≡ ok (r', accepted r.connection_cnt accept_err))
      × (fresh : NothingYet r.connection_cnt (record {
        reactor = r';
        pool = pool;
        hands = λ i. [];
        calls = accepted r.connection_cnt accept_err;
        dispatched = [];
        reads = λ i. [];
      }))
      × IsNew r.connection_cnt r.opts.protocol fresh.conn
on_connect-NothingYet uv n accept_err r num pool ready wanted reg wired quiet unwrapped some_size le
      bounded alive =
    let (conn, r', e, reg', wired', opened, new, _, kept) =
      on_connect_registers uv n accept_err r reg wired unwrapped some_size le bounded alive in
    (
      r',
      e,
      record {
        registry = reg';
        wired = wired';
        conn = conn;
        opened = opened;
        staffed = omega (arith, ready.counted, wanted);
        working = λ i lt. (make_worker, ready.each i (omega (arith, lt, ready.counted)));
        unwritten = accepted-written r.connection_cnt r.connection_cnt accept_err;
        unreplied = ap (replies_to r.connection_cnt) (kept ∙ quiet);
        unheld = λ to_mcp_reply i.
            ap (mine to_mcp_reply r.connection_cnt) (IsReady-queue_of num pool ready i);
        unmarked = λ i. subst (All IsBatch) (sym (IsReady-queue_of num pool ready i)) tt;
        signalled = inl (kept ∙ quiet);
        unread = refl;
        undispatched = refl;
      },
      new,
    )

of_connection-IsGiven :
    (k cnt : ℕ) (bs : List BatchTask) → cnt ≤ k → All (IsGiven cnt) bs → of_connection k bs ≡ []
of_connection-IsGiven k cnt [] le h = refl
of_connection-IsGiven k cnt (stop_marker ∷ bs) le (p, h) = absurd p
of_connection-IsGiven k cnt (batch id ts builder ∷ bs) le (lt, h) =
    rw (==_false id k (omega (arith, lt, le))) (of_connection-IsGiven k cnt bs le h)

IsGiven-IsBatch : (cnt : ℕ) (bs : List BatchTask) → All (IsGiven cnt) bs → All IsBatch bs
IsGiven-IsBatch cnt [] h = tt
IsGiven-IsBatch cnt (stop_marker ∷ bs) (p, h) = absurd p
IsGiven-IsBatch cnt (batch id ts builder ∷ bs) (lt, h) = (tt, IsGiven-IsBatch cnt bs h)

-- A client that connects, whatever the threads have done before: nothing is there yet for its
-- connection.
pub connects-NothingYet :
    (o : ReactorOptions) (s : System) (uv : Libuv) (n : ℕ) (accept_err : ℤ) (r : Reactor)
    (cs : List Call)
    → IsSound o s
    → s.reactor.connection_cnt + 1 < 2 ^ 64
    → 0 < s.reactor.opts.connection_opts.read_buf_min_size
    → s.reactor.opts.connection_opts.read_buf_min_size
      ≤ s.reactor.opts.connection_opts.read_buf_max_size
    → s.reactor.opts.connection_opts.read_buf_max_size ≤ 2 ^ 63
    → enable_keepalive uv s.reactor.opts.tcp_opts.keepalive ≡ ok tt
    → on_connect uv (pos n) accept_err s.reactor ≡ ok (r, cs)
    → (fresh : NothingYet s.reactor.connection_cnt
        (record s { reactor = r; calls = s.calls ++ cs }))
      × IsNew s.reactor.connection_cnt s.reactor.opts.protocol fresh.conn
connects-NothingYet o s uv n accept_err r cs sound unwrapped some_size le bounded alive e =
    let cnt = s.reactor.connection_cnt in
    let (conn, q, e', _, _, opened, new, _, waiting) =
      on_connect_registers uv n accept_err s.reactor sound.good.registry sound.good.wired unwrapped
        some_size le bounded alive in
    let (same, _) = ok_pair-injective (sym e' ∙ e) in
    let (good, _, silent) =
      on_connect-IsGood o uv n accept_err s.reactor sound.good unwrapped some_size le bounded alive
        e in
    (
      record {
        registry = good.registry;
        wired = good.wired;
        conn = conn;
        opened = ap (λ (p : Reactor). find cnt p.connections) (sym same) ∙ opened;
        staffed = sound.staff.staffed;
        working = sound.staff.working;
        unmarked = λ i. IsGiven-IsBatch cnt _ (sound.held i);
        signalled = good.signalled;
        unread = sound.unread cnt (omega arith);
        undispatched = sound.undispatched cnt (omega arith);
        unheld = λ to_mcp_reply i.
            mine-of_connection to_mcp_reply cnt (s.hands i ++ queue_of (s.pool.workers i))
            ∙ ap (mine to_mcp_reply cnt)
                (of_connection-IsGiven cnt cnt _ (omega arith) (sound.held i));
        unreplied =
            ap (λ (p : Reactor). replies_to cnt p.replies) (sym same)
            ∙ ap (replies_to cnt) waiting
            ∙ sound.good.unreplied cnt (omega arith);
        unwritten = calls-written o s cs sound (λ k _. silent k) cnt (omega arith);
      },
      new,
    )
