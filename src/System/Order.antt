-- ===== src/System/Order.antt =====
-- What reaches one connection, whatever the order in which the reactor and the workers of
-- reactor.cpp and worker.cpp take their steps.
use vector_engine.Common.{ℕ, ◌%◌, ◌<◌, ◌≡◌, refl, sym, ap, ap₂, ◌∙◌, [], ◌++◌, Bytes, some, inl}
use vector_engine.Common.Maps.{find}
use vector_engine.Task.{TaskOutput}
use vector_engine.Connection.{Connection}
use vector_engine.Worker.{Worker, batch}
use vector_engine.Worker.Answers.{batch_replies}
use vector_engine.Reactor.Registry.{IsRegistry, IsWired}
use vector_engine.Errors.{ok_pair-injective}
use vector_engine.Reactor.{Reactor}
use vector_engine.Reactor.Signals.{
  IsSignalled, send-IsSignalled, on_write-IsSignalled, on_close-IsSignalled, on_connect-IsSignalled,
}
use vector_engine.Reactor.Send.{written, replies_to, on_reply-written}
use vector_engine.System.{
  System, Step, Steps, receives, ends, fetches, answers_batch, replies, writes, connects, closes,
  done, more,
}
use vector_engine.System.Load.{queue_of, mine, load}
use vector_engine.System.Batches.{of_connection, mine-of_connection}
use vector_engine.System.Held.{fetch-IsHeld, answer-IsHeld}
use vector_engine.System.Unmarked.{IsBatch, IsUnmarked}
use vector_engine.System.InOrder.{InOrder}
use vector_engine.System.Serves.{Serves, step-reads, step-ends}
use vector_engine.Connection.Stream.{receive_all}
use vector_engine.System.Workers.{step-fetches, step-answers_batch}
use vector_engine.System.Loop.{step-replies, step-writes, step-connects, step-closes}

-- The map and the handles of the reactor are in order, the connection `k` is open, every worker
-- runs, none holds a stop marker, a signal is on its way if replies wait, and nothing is read from
-- the connection or dispatched, held, waiting or written for it yet.
pub record NothingYet (k : ℕ) (s : System) : Type 0 where
  pub registry : IsRegistry s.reactor
  pub wired : IsWired s.reactor
  pub conn : Connection
  pub opened : find k s.reactor.connections ≡ some conn
  pub staffed : 0 < s.pool.size
  pub working : (i : ℕ) → i < s.pool.size → (w : Worker) × (s.pool.workers i ≡ some w)
  pub unmarked : IsUnmarked s.hands s.pool.workers
  pub signalled : IsSignalled s.reactor
  pub unread : s.reads k ≡ []
  pub undispatched : of_connection k s.dispatched ≡ []
  pub unheld :
      (to_mcp_reply : TaskOutput → Bytes) (i : ℕ)
      → load to_mcp_reply k s.hands s.pool.workers i ≡ []
  pub unreplied : replies_to k s.reactor.replies ≡ []
  pub unwritten : written k s.calls ≡ []

-- No reply waits in the reactor and no batch is with a worker.
pub record IsQuiet (s : System) : Type 0 where
  pub replied : s.reactor.replies ≡ []
  pub answered : (i : ℕ) → s.hands i ≡ []
  pub fetched : (i : ℕ) → queue_of (s.pool.workers i) ≡ []

module _ (to_mcp_reply : TaskOutput → Bytes) (reserve_limit k : ℕ) where
  pub NothingYet-Serves :
      (s : System) (fresh : NothingYet k s) → Serves to_mcp_reply reserve_limit k fresh.conn s
  unfolding receive_all
  NothingYet-Serves s fresh = record {
    conn = fresh.conn;
    es = [];
    order = record {
      registry = fresh.registry;
      wired = fresh.wired;
      opened = fresh.opened;
      staffed = fresh.staffed;
      working = fresh.working;
      elsewhere = λ i away. fresh.unheld to_mcp_reply i;
      order =
          ap₂ ◌++◌ fresh.unwritten
            (ap₂ ◌++◌ fresh.unreplied (fresh.unheld to_mcp_reply (k % s.pool.size)))
          ∙ ap (mine to_mcp_reply k) (sym fresh.undispatched)
          ∙ sym (mine-of_connection to_mcp_reply k s.dispatched);
    };
    history = rw (fresh.unread) refl;
    stays = tt;
    handed = fresh.undispatched;
    unmarked = fresh.unmarked;
    signalled = fresh.signalled;
  }

  -- A step that reads nothing and dispatches nothing.
  unread_step :
      {start : Connection} {s : System} (s' : System)
      (inv : Serves to_mcp_reply reserve_limit k start s)
      → s'.reads ≡ s.reads
      → s'.dispatched ≡ s.dispatched
      → InOrder to_mcp_reply k inv.conn s'
      → IsUnmarked s'.hands s'.pool.workers
      → IsSignalled s'.reactor
      → Serves to_mcp_reply reserve_limit k start s'
  unread_step {start} s' inv same_reads same_dispatched order unmarked signalled = record {
    conn = inv.conn;
    es = inv.es;
    order = order;
    history = ap (λ r. receive_all reserve_limit start (r k)) same_reads ∙ inv.history;
    stays = inv.stays;
    handed = ap (of_connection k) same_dispatched ∙ inv.handed;
    unmarked = unmarked;
    signalled = signalled;
  }

  pub Step-Serves :
      {start : Connection} {s s' : System}
      → Step to_mcp_reply reserve_limit k s s'
      → Serves to_mcp_reply reserve_limit k start s
      → Serves to_mcp_reply reserve_limit k start s'
  Step-Serves (receives s id n bytes c c' es p found read stays e _) inv =
      step-reads to_mcp_reply reserve_limit k s id n bytes c c' es p found read stays e inv
  Step-Serves (ends s id n c c' es other found read _) inv =
      step-ends to_mcp_reply reserve_limit k s id n c c' es other found read inv
  Step-Serves (fetches s i w found free _) inv =
      unread_step _ inv refl refl (step-fetches to_mcp_reply k s i w inv.order found free)
        (fetch-IsHeld IsBatch s.hands s.pool.workers i w found inv.unmarked) inv.signalled
  Step-Serves (answers_batch s i id ts builder bs r held e) inv =
      unread_step _ inv refl refl
        (step-answers_batch to_mcp_reply k s i id ts builder bs r inv.order held e)
        (answer-IsHeld IsBatch s.hands s.pool.workers i (batch id ts builder) bs held inv.unmarked)
        (send-IsSignalled _ s.reactor inv.order.wired e)
  Step-Serves (replies s r cs _ e) inv =
      let (_, _, e', emptied, _, _) =
        on_reply-written s.reactor k inv.order.registry inv.order.wired in
      let (same, _) = ok_pair-injective (sym e' ∙ e) in
      unread_step _ inv refl refl (step-replies to_mcp_reply k s r cs inv.order e) inv.unmarked
        (inl (ap (λ (q : Reactor). q.replies) (sym same) ∙ emptied))
  Step-Serves (writes s address status) inv =
      unread_step _ inv refl refl (step-writes to_mcp_reply k s address status inv.order)
        inv.unmarked (on_write-IsSignalled address status s.reactor inv.signalled)
  Step-Serves (connects s uv n accept_err r cs unwrapped some_size le bounded alive e) inv =
      unread_step _ inv refl refl
        (step-connects to_mcp_reply k s uv n accept_err r cs inv.order unwrapped some_size le
          bounded alive e)
        inv.unmarked
        (on_connect-IsSignalled uv n accept_err s.reactor inv.order.wired unwrapped some_size le
          bounded alive e inv.signalled)
  Step-Serves (closes s closed other) inv =
      unread_step _ inv refl refl (step-closes to_mcp_reply k s closed inv.order other) inv.unmarked
        (on_close-IsSignalled closed s.reactor inv.signalled)

  pub Steps-Serves :
      {start : Connection} {s s' : System}
      → Steps to_mcp_reply reserve_limit k s s'
      → Serves to_mcp_reply reserve_limit k start s
      → Serves to_mcp_reply reserve_limit k start s'
  Steps-Serves (done s) inv = inv
  Steps-Serves (more step rest) inv = Steps-Serves rest (Step-Serves step inv)

  -- From a state in which the map and the handles of the reactor are in order, a connection is
  -- open, every worker runs, none holds a stop marker, a signal is on its way if replies wait,
  -- and nothing is read from the connection or dispatched, held, waiting or written for it yet,
  -- whatever the order in which the loop reads, takes signals, connects and closes other
  -- connections and the workers fetch and answer batches, as long as the connection is not
  -- closed: what was written to the connection is at the front of the answers to the batches that
  -- it dispatched, in their order, and it is all of them once no reply and no batch is under way.
  pub system_order :
      (s s' : System)
      → NothingYet k s
      → Steps to_mcp_reply reserve_limit k s s'
      → (rest : Bytes) × (replies_to k (batch_replies to_mcp_reply s'.dispatched)
          ≡ written k s'.calls ++ rest)
        × (IsQuiet s' → rest ≡ [])
  system_order s s' fresh steps =
      let inv = Steps-Serves steps (NothingYet-Serves s fresh) in
      let home = k % s'.pool.size in
      (
        replies_to k s'.reactor.replies ++ load to_mcp_reply k s'.hands s'.pool.workers home,
        sym inv.order.order,
        λ quiet. ap₂ ◌++◌ (ap (replies_to k) quiet.replied) (
            ap₂ (λ bs cs. mine to_mcp_reply k (bs ++ cs)) (quiet.answered home)
              (quiet.fetched home)),
      )
