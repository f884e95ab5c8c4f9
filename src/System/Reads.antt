-- ===== src/System/Reads.antt =====
-- The steps of reactor.cpp that read: `Connection::on_read` of connection.cpp and the calls that
-- it makes on the reactor.
use vector_engine.Common.{
  ℕ, ◌≡◌, refl, sym, subst, ◌∙◌, List, [], ◌∷◌, ◌++◌, append-nil, append_assoc, Bytes, some, ◌==◌,
  ==_iff, ==_ne, Bool-cases, inl, inr,
}
use vector_engine.Common.Maps.{find, assign, update, find-assign_self, find-assign_ne}
use vector_engine.Errors.{ok, ok-injective, >>=-eq-ok}
use vector_engine.Task.{TaskOutput}
use vector_engine.Connection.{Connection, Effect, dispatch, close}
use vector_engine.Worker.{batch, WorkerPoolSPtr}
use vector_engine.Reactor.Registry.{find-IsEntry, All-assign}
use vector_engine.Reactor.Send.{written}
use vector_engine.System.{System, carry_out, batches_of, closings, assign_connection}
use vector_engine.System.InOrder.{InOrder}
use vector_engine.System.Workers.{step-dispatches}
use vector_engine.System.Loop.{idle_step}

-- The close of a handle writes nothing.
pub closings-written : (k id : ℕ) (es : List Effect) → written k (closings id es) ≡ []
closings-written k id [] = refl
closings-written k id (dispatch j ts builder ∷ es) = closings-written k id es
closings-written k id (close ∷ es) = closings-written k id es

module _ (to_mcp_reply : TaskOutput → Bytes) (k : ℕ) where
  -- All batches of a read are dispatched.
  carry_out-InOrder :
      {conn : Connection} (s : System) (es : List Effect) (p : WorkerPoolSPtr)
      → InOrder to_mcp_reply k conn s
      → carry_out es s.pool ≡ ok p
      → InOrder to_mcp_reply k conn
          (record s { pool = p; dispatched = s.dispatched ++ batches_of es })
  unfolding carry_out
  carry_out-InOrder {conn} s [] p inv e =
      subst
        (λ q. InOrder to_mcp_reply k conn (record s { pool = q; dispatched = s.dispatched ++ [] }))
        (ok-injective e)
        (subst (λ bs. InOrder to_mcp_reply k conn (record s { dispatched = bs }))
          (sym (append-nil s.dispatched)) inv)
  carry_out-InOrder s (close ∷ es) p inv e = carry_out-InOrder s es p inv e
  carry_out-InOrder {conn} s (dispatch id ts builder ∷ es) p inv e =
      let (q, e', more) = >>=-eq-ok _ _ e in
      let b = batch id ts builder in
      subst (λ bs. InOrder to_mcp_reply k conn (record s { pool = p; dispatched = bs }))
        (append_assoc s.dispatched (b ∷ []) (batches_of es))
        (carry_out-InOrder (record s { pool = q; dispatched = s.dispatched ++ b ∷ [] }) es p
          (step-dispatches to_mcp_reply k s id ts builder q inv e') more)

  -- A connection of the map changes, and some handles are closed.
  pub step-assigns :
      {conn now : Connection} (s : System) (id : ℕ) (c c' : Connection) (es : List Effect)
      (reads : ℕ → List (ℕ × Bytes))
      → InOrder to_mcp_reply k conn s
      → find id s.reactor.connections ≡ some c
      → c'.id ≡ c.id
      → find k (assign id c' s.reactor.connections) ≡ some now
      → InOrder to_mcp_reply k now (record s {
        reactor = assign_connection id c' s.reactor;
        calls = s.calls ++ closings id es;
        reads = reads;
      })
  step-assigns s id c c' es reads inv found same opened =
      let (named, _) =
        find-IsEntry s.reactor.connection_cnt id s.reactor.connections inv.registry found in
      idle_step to_mcp_reply k s (assign_connection id c' s.reactor) (closings id es) reads inv
        (All-assign s.reactor.connection_cnt id c' s.reactor.connections inv.registry
          (same ∙ named))
        (inv.wired) opened refl (closings-written k id es)

  pub step-receives :
      {conn now : Connection} (s : System) (id n : ℕ) (bytes : Bytes) (c c' : Connection)
      (es : List Effect) (p : WorkerPoolSPtr)
      → InOrder to_mcp_reply k conn s
      → find id s.reactor.connections ≡ some c
      → c'.id ≡ c.id
      → find k (assign id c' s.reactor.connections) ≡ some now
      → carry_out es s.pool ≡ ok p
      → InOrder to_mcp_reply k now (record s {
        reactor = assign_connection id c' s.reactor;
        pool = p;
        calls = s.calls ++ closings id es;
        dispatched = s.dispatched ++ batches_of es;
        reads = update s.reads id (s.reads id ++ (n, bytes) ∷ []);
      })
  step-receives s id n bytes c c' es p inv found same opened e =
      carry_out-InOrder _ es p (step-assigns s id c c' es _ inv found same opened) e

-- A connection that changes in place is still there.
pub still_open :
    (k id : ℕ) (m : List (ℕ × Connection)) (conn c c' : Connection)
    → find k m ≡ some conn
    → find id m ≡ some c
    → (now : Connection) × (find k (assign id c' m) ≡ some now)
still_open k id m conn c c' opened found = elim (Bool-cases (id == k)) [
  | inl same ↦ (
    c',
    subst (λ i. find k (assign i c' m) ≡ some c') (sym ((==_iff id k).0 same))
        (find-assign_self k c' conn m opened),
  )
  | inr other ↦ (conn, find-assign_ne id k c' m (==_ne id k other) ∙ opened)
]
