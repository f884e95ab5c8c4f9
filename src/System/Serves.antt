-- ===== src/System/Serves.antt =====
-- The invariant of the threads of reactor.cpp and worker.cpp, with what one connection has read
-- since it was made.
use mathlib.Core.Option.{some-injective}
use vector_engine.Common.{
  ℕ, ◌≡◌, ◌≢◌, sym, ap, ap₂, subst, ◌∙◌, List, [], ◌∷◌, ◌++◌, append-nil, Bytes, All, some, ◌==◌,
  ==_self, ==_false, ==_iff, ==_ne, Bool-cases, inl, inr, negsuc,
}
use vector_engine.Common.Maps.{find, assign, update, find-assign_self, find-assign_ne}
use vector_engine.Errors.{ok, Ensures-ok}
use vector_engine.Task.{TaskOutput}
use vector_engine.Connection.{Connection, Effect, on_read}
use vector_engine.Connection.Dispatch.{StaysOpen}
use vector_engine.Connection.Read.{receive}
use vector_engine.Connection.Kept.{Kept, IsFrom, receive-Kept, on_read-Kept}
use vector_engine.Connection.Stream.{receive_all, receive_all-append}
use vector_engine.Connection.Requests.{stay_open}
use vector_engine.Worker.{WorkerPoolSPtr}
use vector_engine.Reactor.Registry.{find-IsEntry}
use vector_engine.System.{System, carry_out, batches_of, closings, assign_connection}
use vector_engine.System.Batches.{
  of_connection, of_connection-append, of_connection_own, of_connection_other, batches_of-append,
}
use vector_engine.System.InOrder.{InOrder}
use vector_engine.Reactor.Signals.{IsSignalled}
use vector_engine.System.Held.{carry_out-IsHeld}
use vector_engine.System.Unmarked.{IsBatch, IsUnmarked, batches_of-IsBatch}
use vector_engine.System.Reads.{step-assigns, step-receives}

module _ (to_mcp_reply : TaskOutput → Bytes) (reserve_limit k : ℕ) where
  -- The connection `k` is what its reads have made of `start`, and what these dispatch is what was
  -- dispatched for it.
  pub record Serves (start : Connection) (s : System) : Type 0 where
    pub conn : Connection
    pub es : List Effect
    pub order : InOrder to_mcp_reply k conn s
    pub history : receive_all reserve_limit start (s.reads k) ≡ ok (conn, es)
    pub stays : StaysOpen es
    pub handed : of_connection k s.dispatched ≡ batches_of es
    pub unmarked : IsUnmarked s.hands s.pool.workers
    pub signalled : IsSignalled s.reactor

  module _ (s : System) (id n : ℕ) (bytes : Bytes) (c c' : Connection) (fs : List Effect)
      (p : WorkerPoolSPtr) where
    abbrev after : System
    after = record s {
      reactor = assign_connection id c' s.reactor;
      pool = p;
      calls = s.calls ++ closings id fs;
      dispatched = s.dispatched ++ batches_of fs;
      reads = update s.reads id (s.reads id ++ (n, bytes) ∷ []);
    }

    -- A read of the connection.
    own_read :
        {start : Connection}
        → id ≡ k
        → find id s.reactor.connections ≡ some c
        → receive reserve_limit c n bytes ≡ ok (c', fs)
        → StaysOpen fs
        → carry_out fs s.pool ≡ ok p
        → Serves start s
        → Serves start after
    own_read {start} same found read open_now e inv =
        let kept = Ensures-ok (Kept c) read (receive-Kept reserve_limit c n bytes) in
        let found' = subst (λ j. find j s.reactor.connections ≡ some c) same found in
        let (named, _) =
          find-IsEntry s.reactor.connection_cnt id s.reactor.connections inv.order.registry found in
        let current : inv.conn ≡ c = some-injective inv.conn c (sym inv.order.opened ∙ found') in
        record {
          conn = c';
          es = inv.es ++ fs;
          order =
              step-receives to_mcp_reply k s id n bytes c c' fs p inv.order found kept.same_id
                (subst (λ j. find k (assign j c' s.reactor.connections) ≡ some c') (sym same)
                  (find-assign_self k c' c s.reactor.connections found'))
                e;
          history =
              rw (same, ==_self k)
                (receive_all-append reserve_limit start c c' (s.reads k) inv.es fs n bytes
                  (inv.history ∙ ap (λ (d : Connection). ok (d, inv.es)) current) read);
          stays = stay_open inv.es fs inv.stays open_now;
          handed =
              of_connection-append k s.dispatched (batches_of fs)
              ∙ ap₂ ◌++◌ inv.handed
                  (of_connection_own k fs (subst (λ j. All (IsFrom j) fs) (named ∙ same) kept.from))
              ∙ sym (batches_of-append inv.es fs);
          unmarked =
              (carry_out-IsHeld IsBatch s.hands fs s.pool p
                (record { staffed = inv.order.staffed; working = inv.order.working }) e
                (batches_of-IsBatch fs) inv.unmarked).1;
          signalled = inv.signalled;
        }

    -- A read of another connection.
    other_read :
        {start : Connection}
        → id ≢ k
        → find id s.reactor.connections ≡ some c
        → receive reserve_limit c n bytes ≡ ok (c', fs)
        → carry_out fs s.pool ≡ ok p
        → Serves start s
        → Serves start after
    other_read {start} other found read e inv =
        let kept = Ensures-ok (Kept c) read (receive-Kept reserve_limit c n bytes) in
        let (named, _) =
          find-IsEntry s.reactor.connection_cnt id s.reactor.connections inv.order.registry found in
        record {
          conn = inv.conn;
          es = inv.es;
          order =
              step-receives to_mcp_reply k s id n bytes c c' fs p inv.order found kept.same_id
                (find-assign_ne id k c' s.reactor.connections other ∙ inv.order.opened) e;
          history = rw (==_false id k other) inv.history;
          stays = inv.stays;
          handed =
              of_connection-append k s.dispatched (batches_of fs)
              ∙ ap₂ ◌++◌ inv.handed (
                  of_connection_other k id fs other
                    (subst (λ j. All (IsFrom j) fs) named kept.from))
              ∙ append-nil (batches_of inv.es);
          unmarked =
              (carry_out-IsHeld IsBatch s.hands fs s.pool p
                (record { staffed = inv.order.staffed; working = inv.order.working }) e
                (batches_of-IsBatch fs) inv.unmarked).1;
          signalled = inv.signalled;
        }

    pub step-reads :
        {start : Connection}
        → find id s.reactor.connections ≡ some c
        → receive reserve_limit c n bytes ≡ ok (c', fs)
        → (id ≡ k → StaysOpen fs)
        → carry_out fs s.pool ≡ ok p
        → Serves start s
        → Serves start after
    step-reads found read open_now e inv = elim (Bool-cases (id == k)) [
      | inl same ↦
          own_read ((==_iff id k).0 same) found read (open_now ((==_iff id k).0 same)) e inv
      | inr other ↦ other_read (==_ne id k other) found read e inv
    ]

  pub step-ends :
      {start : Connection} (s : System) (id n : ℕ) (c c' : Connection) (fs : List Effect)
      → id ≢ k
      → find id s.reactor.connections ≡ some c
      → on_read reserve_limit c (negsuc n) ≡ ok (c', fs)
      → Serves start s
      → Serves start (record s {
        reactor = assign_connection id c' s.reactor;
        calls = s.calls ++ closings id fs;
      })
  step-ends s id n c c' fs other found read inv =
      let kept = Ensures-ok (Kept c) read (on_read-Kept reserve_limit c (negsuc n)) in
      record {
        conn = inv.conn;
        es = inv.es;
        order =
            step-assigns to_mcp_reply k s id c c' fs s.reads inv.order found kept.same_id
              (find-assign_ne id k c' s.reactor.connections other ∙ inv.order.opened);
        history = inv.history;
        stays = inv.stays;
        handed = inv.handed;
        unmarked = inv.unmarked;
        signalled = inv.signalled;
      }
