-- ===== src/System/Loop.antt =====
-- The steps of the loop of reactor.cpp: its callbacks.
use vector_engine.Common.{
  ℕ, zero, suc, ℤ, pos, negsuc, ◌+◌, ◌≤◌, ◌^◌, ◌%◌, ◌<◌, ◌≡◌, ◌≢◌, refl, sym, ap, ap₂, subst, ◌∙◌,
  List, [], ◌++◌, append-nil, append_assoc, Bytes, some, arith,
}
use vector_engine.Common.Maps.{find}
use vector_engine.Errors.{ok, ok_pair-injective}
use vector_engine.Task.{TaskOutput}
use vector_engine.Connection.{Connection}
use vector_engine.Reactor.{
  Reactor, Call, accepted, on_reply, on_write, on_connect, on_close, remove_connection,
}
use vector_engine.Uv.{Libuv, enable_keepalive}
use vector_engine.Reactor.Kept.{on_reply-IsRegistry}
use vector_engine.Reactor.Registry.{
  IsRegistry, IsWired, find-IsEntry, on_connect_registers, on_close_unregisters,
}
use vector_engine.Reactor.Send.{written, replies_to, if_open, on_reply-written, written-append}
use vector_engine.System.{System}
use vector_engine.System.Load.{load}
use vector_engine.System.InOrder.{InOrder}

-- The call that an accepted or refused client gets writes nothing.
pub accepted-written : (k id : ℕ) (err : ℤ) → written k (accepted id err) ≡ []
unfolding accepted
accepted-written k id (pos zero) = refl
accepted-written k id (pos (suc n)) = refl
accepted-written k id (negsuc n) = refl

module _ (to_mcp_reply : TaskOutput → Bytes) (k : ℕ) where
  -- A callback that keeps what waits and what is held, and writes nothing to the connection.
  pub idle_step :
      {conn now : Connection} (s : System) (r : Reactor) (cs : List Call)
      (reads : ℕ → List (ℕ × Bytes))
      → InOrder to_mcp_reply k conn s
      → IsRegistry r
      → IsWired r
      → find k r.connections ≡ some now
      → r.replies ≡ s.reactor.replies
      → written k cs ≡ []
      → InOrder to_mcp_reply k now (record s { reactor = r; calls = s.calls ++ cs; reads = reads })
  idle_step s r cs reads inv reg wired opened kept silent = record {
    registry = reg;
    wired = wired;
    opened = opened;
    staffed = inv.staffed;
    working = inv.working;
    elsewhere = inv.elsewhere;
    order =
        ap₂
          (λ w rs.
            w ++ (replies_to k rs ++ load to_mcp_reply k s.hands s.pool.workers (k % s.pool.size)))
          (written-append k s.calls cs
            ∙ ap (λ t. written k s.calls ++ t) silent
            ∙ append-nil (written k s.calls))
          kept
        ∙ inv.order;
  }

  pub step-replies :
      {conn : Connection} (s : System) (r : Reactor) (cs : List Call)
      → InOrder to_mcp_reply k conn s
      → on_reply s.reactor ≡ ok (r, cs)
      → InOrder to_mcp_reply k conn (record s { reactor = r; calls = s.calls ++ cs })
  step-replies s r cs inv e =
      let (r', cs', e', emptied, kept, sent) =
        on_reply-written s.reactor k inv.registry inv.wired in
      let same = ok_pair-injective (sym e' ∙ e) in
      let (reg, wired) = on_reply-IsRegistry s.reactor r cs inv.registry inv.wired e in
      let none_left = ap (λ q. q.replies) (sym same.0) ∙ emptied in
      let gone : written k cs ≡ replies_to k s.reactor.replies =
        ap (written k) (sym same.1)
        ∙ sent
        ∙ ap (λ o. if_open o (replies_to k s.reactor.replies)) inv.opened in
      let held = load to_mcp_reply k s.hands s.pool.workers (k % s.pool.size) in
      record {
        registry = reg;
        wired = wired;
        opened = ap (λ q. find k q.connections) (sym same.0) ∙ ap (find k) kept ∙ inv.opened;
        staffed = inv.staffed;
        working = inv.working;
        elsewhere = inv.elsewhere;
        order =
            ap₂ (λ w rs. w ++ (replies_to k rs ++ held))
              (written-append k s.calls cs ∙ ap (λ t. written k s.calls ++ t) gone) none_left
            ∙ append_assoc (written k s.calls) (replies_to k s.reactor.replies) held
            ∙ inv.order;
      }

  pub step-writes :
      {conn : Connection} (s : System) (address : ℕ) (status : ℤ)
      → InOrder to_mcp_reply k conn s
      → InOrder to_mcp_reply k conn (record s { reactor = on_write address status s.reactor })
  unfolding on_write
  step-writes s address (pos n) inv = record {
    registry = inv.registry;
    wired = inv.wired;
    opened = inv.opened;
    staffed = inv.staffed;
    working = inv.working;
    elsewhere = inv.elsewhere;
    order = inv.order;
  }
  step-writes s address (negsuc n) inv = inv

  pub step-connects :
      {conn : Connection} (s : System) (uv : Libuv) (n : ℕ) (accept_err : ℤ) (r : Reactor)
      (cs : List Call)
      → InOrder to_mcp_reply k conn s
      → s.reactor.connection_cnt + 1 < 2 ^ 64
      → 0 < s.reactor.opts.connection_opts.read_buf_min_size
      → s.reactor.opts.connection_opts.read_buf_min_size
        ≤ s.reactor.opts.connection_opts.read_buf_max_size
      → s.reactor.opts.connection_opts.read_buf_max_size ≤ 2 ^ 63
      → enable_keepalive uv s.reactor.opts.tcp_opts.keepalive ≡ ok tt
      → on_connect uv (pos n) accept_err s.reactor ≡ ok (r, cs)
      → InOrder to_mcp_reply k conn (record s { reactor = r; calls = s.calls ++ cs })
  step-connects s uv n accept_err r cs inv unwrapped some_size le bounded alive e =
      let (_, r', e', reg, wired, _, _, others, waiting) =
        on_connect_registers uv n accept_err s.reactor inv.registry inv.wired unwrapped some_size le
          bounded alive in
      let same = ok_pair-injective (sym e' ∙ e) in
      let (_, given) =
        find-IsEntry s.reactor.connection_cnt k s.reactor.connections inv.registry inv.opened in
      idle_step s r cs s.reads inv (subst IsRegistry same.0 reg) (subst IsWired same.0 wired)
        (ap (λ q. find k q.connections) (sym same.0) ∙ others k (omega (arith, given)) ∙ inv.opened)
        (ap (λ q. q.replies) (sym same.0) ∙ waiting)
        (ap (written k) (sym same.1) ∙ accepted-written k s.reactor.connection_cnt accept_err)

  pub step-closes :
      {conn : Connection} (s : System) (closed : Connection)
      → InOrder to_mcp_reply k conn s
      → closed.id ≢ k
      → InOrder to_mcp_reply k conn (record s { reactor = on_close closed s.reactor })
  unfolding on_close remove_connection
  step-closes s closed inv other =
      let (reg, _, others) = on_close_unregisters closed s.reactor inv.registry in
      record {
        registry = reg;
        wired = inv.wired;
        opened = others k other ∙ inv.opened;
        staffed = inv.staffed;
        working = inv.working;
        elsewhere = inv.elsewhere;
        order = inv.order;
      }
