-- ===== src/System/Good.antt =====
-- What holds of the reactor of reactor.cpp whatever its callbacks do.
use vector_engine.Common.{
  ℕ, ◌+◌, ◌<◌, ◌≤◌, ◌^◌, ◌≡◌, refl, sym, ap, ap₂, subst, ◌∙◌, ℤ, pos, negsuc, List, [], ◌++◌, some,
  arith, inl, true,
}
use vector_engine.Common.Maps.{find}
use vector_engine.Errors.{ok, ok-injective, ok_pair-injective}
use vector_engine.Connection.{Connection}
use vector_engine.Worker.{Reply}
use vector_engine.Uv.{Libuv, enable_keepalive}
use vector_engine.Reactor.{
  Reactor, ReactorOptions, Call, send, on_reply, on_write, on_connect, on_close, remove_connection,
}
use vector_engine.Reactor.Kept.{on_reply-IsRegistry, on_reply_counts, on_connect_counts}
use vector_engine.Reactor.Registry.{
  IsRegistry, IsWired, find-IsEntry, All-assign, fresh, on_connect_registers, on_close_unregisters,
}
use vector_engine.Reactor.Send.{written, replies_to, replies_to-append, if_open, on_reply-written}
use vector_engine.Reactor.Signals.{IsSignalled, send_lem, send-IsSignalled, on_connect-IsSignalled}
use vector_engine.System.Loop.{accepted-written}
use vector_engine.System.{assign_connection}

-- The thread of the loop runs, the map and the handles are in order, replies that wait were signalled, and none waits for an id
-- that was not given out yet.
pub record IsGood (o : ReactorOptions) (r : Reactor) : Type 0 where
  pub same_opts : r.opts ≡ o
  pub running : r.joinable ≡ true
  pub registry : IsRegistry r
  pub wired : IsWired r
  pub signalled : IsSignalled r
  pub unreplied : (k : ℕ) → r.connection_cnt ≤ k → replies_to k r.replies ≡ []

module _ (o : ReactorOptions) where
  pub assign-IsGood :
      (r : Reactor) (id : ℕ) (c c' : Connection)
      → IsGood o r
      → find id r.connections ≡ some c
      → c'.id ≡ c.id
      → IsGood o (assign_connection id c' r)
  assign-IsGood r id c c' good found same = record {
    same_opts = good.same_opts;
    running = good.running;
    registry =
        All-assign r.connection_cnt id c' r.connections good.registry
          (same ∙ (find-IsEntry r.connection_cnt id r.connections good.registry found).0);
    wired = good.wired;
    signalled = good.signalled;
    unreplied = good.unreplied;
  }

  pub send-IsGood :
      (rs : List Reply) (r : Reactor) {r' : Reactor}
      → IsGood o r
      → ((k : ℕ) → r.connection_cnt ≤ k → replies_to k rs ≡ [])
      → send rs r ≡ ok r'
      → IsGood o r' × (r'.connection_cnt ≡ r.connection_cnt)
  send-IsGood rs r {r'} good none_new e =
      let same = ok-injective (sym (send_lem rs r good.wired) ∙ e) in
      subst (λ (q : Reactor). IsGood o q × (q.connection_cnt ≡ r.connection_cnt)) same
        (
          record {
            same_opts = good.same_opts;
            running = good.running;
            registry = good.registry;
            wired = good.wired;
            signalled = subst IsSignalled (sym same) (send-IsSignalled rs r good.wired e);
            unreplied = λ k le.
                replies_to-append k r.replies rs ∙ ap₂ ◌++◌ (good.unreplied k le) (none_new k le);
          },
          refl,
        )

  pub on_reply-IsGood :
      (r : Reactor) {r' : Reactor} {cs : List Call}
      → IsGood o r
      → on_reply r ≡ ok (r', cs)
      → IsGood o r'
        × (r'.connection_cnt ≡ r.connection_cnt)
        × ((k : ℕ) → r.connection_cnt ≤ k → written k cs ≡ [])
  on_reply-IsGood r {r'} {cs} good e =
      let (reg, wired) = on_reply-IsRegistry r r' cs good.registry good.wired e in
      let (counted, kept, still) = on_reply_counts r r' cs good.wired e in
      let silent : (k : ℕ) → r.connection_cnt ≤ k → (r'.replies ≡ []) × (written k cs ≡ []) =
        λ k le.
          let (_, _, e', emptied, _, sent) = on_reply-written r k good.registry good.wired in
          let (same, same_calls) = ok_pair-injective (sym e' ∙ e) in
          (
            ap (λ (q : Reactor). q.replies) (sym same) ∙ emptied,
            ap (written k) (sym same_calls)
                ∙ sent
                ∙ ap (λ c. if_open c (replies_to k r.replies))
                    (fresh r.connection_cnt k r.connections le good.registry),
          ) in
      let (none_left, _) = silent r.connection_cnt (omega arith) in
      (
        record {
          same_opts = kept ∙ good.same_opts;
          running = still ∙ good.running;
          registry = reg;
          wired = wired;
          signalled = inl none_left;
          unreplied = λ k le. ap (replies_to k) none_left;
        },
        counted,
        λ k le. (silent k le).1,
      )

  pub on_write-IsGood :
      (r : Reactor) (address : ℕ) (status : ℤ)
      → IsGood o r
      → IsGood o (on_write address status r)
        × ((on_write address status r).connection_cnt ≡ r.connection_cnt)
  unfolding on_write
  on_write-IsGood r address (pos n) good = (
    record {
      same_opts = good.same_opts;
      running = good.running;
      registry = good.registry;
      wired = good.wired;
      signalled = good.signalled;
      unreplied = good.unreplied;
    },
    refl,
  )
  on_write-IsGood r address (negsuc n) good = (good, refl)

  pub on_close-IsGood :
      (r : Reactor) (closed : Connection)
      → IsGood o r
      → IsGood o (on_close closed r) × ((on_close closed r).connection_cnt ≡ r.connection_cnt)
  unfolding on_close remove_connection
  on_close-IsGood r closed good = (
    record {
      same_opts = good.same_opts;
      running = good.running;
      registry = (on_close_unregisters closed r good.registry).0;
      wired = good.wired;
      signalled = good.signalled;
      unreplied = good.unreplied;
    },
    refl,
  )

  pub on_connect-IsGood :
      (uv : Libuv) (n : ℕ) (accept_err : ℤ) (r : Reactor) {r' : Reactor} {cs : List Call}
      → IsGood o r
      → r.connection_cnt + 1 < 2 ^ 64
      → 0 < r.opts.connection_opts.read_buf_min_size
      → r.opts.connection_opts.read_buf_min_size ≤ r.opts.connection_opts.read_buf_max_size
      → r.opts.connection_opts.read_buf_max_size ≤ 2 ^ 63
      → enable_keepalive uv r.opts.tcp_opts.keepalive ≡ ok tt
      → on_connect uv (pos n) accept_err r ≡ ok (r', cs)
      → IsGood o r' × (r'.connection_cnt ≡ r.connection_cnt + 1) × ((k : ℕ) → written k cs ≡ [])
  on_connect-IsGood uv n accept_err r good unwrapped some_size le bounded alive e =
      let (_, q, e', reg, wired, _, _, _, waiting) =
        on_connect_registers uv n accept_err r good.registry good.wired unwrapped some_size le
          bounded alive in
      let (same, same_calls) = ok_pair-injective (sym e' ∙ e) in
      let (counted, kept, still) =
        on_connect_counts uv n accept_err r good.wired unwrapped some_size le bounded alive e in
      let kept_replies = ap (λ (p : Reactor). p.replies) (sym same) ∙ waiting in
      (
        record {
          same_opts = kept ∙ good.same_opts;
          running = still ∙ good.running;
          registry = subst IsRegistry same reg;
          wired = subst IsWired same wired;
          signalled =
              on_connect-IsSignalled uv n accept_err r good.wired unwrapped some_size le bounded
                alive e good.signalled;
          unreplied = λ k le'.
              ap (replies_to k) kept_replies ∙ good.unreplied k (omega (arith, le', counted));
        },
        counted,
        λ k. ap (written k) (sym same_calls) ∙ accepted-written k r.connection_cnt accept_err,
      )
