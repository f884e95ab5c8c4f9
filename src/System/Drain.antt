-- ===== src/System/Drain.antt =====
-- That a worker of worker.cpp and the reply callback of reactor.cpp can always take the steps that
-- answer what was dispatched.
use native.Mathlib.Nat.{mod-lt}
use vector_engine.Common.{
  inl, inr, ℕ, ◌%◌, ◌≡◌, refl, sym, ap, ap₂, ◌∙◌, [], ◌++◌, append-nil, Bytes,
}
use vector_engine.Task.{TaskOutput}
use vector_engine.Connection.{Connection}
use vector_engine.Worker.Answers.{batch_replies}
use vector_engine.Reactor.Send.{written, replies_to, on_reply-written}
use vector_engine.System.{System, Steps, replies, done, more}
use vector_engine.System.Idle.{Steps-trans, become-IsIdle}
use vector_engine.System.Load.{mine, load}
use vector_engine.System.Serves.{Serves}
use vector_engine.System.Order.{NothingYet, NothingYet-Serves, Steps-Serves}

module _ (to_mcp_reply : TaskOutput → Bytes) (reserve_limit k : ℕ) where
  -- The replies that wait are written, and no batch moves.
  record HasWritten (s s' : System) : Type 0 where
    steps : Steps to_mcp_reply reserve_limit k s s'
    same_pool : s'.pool ≡ s.pool
    same_hands : s'.hands ≡ s.hands
    same_dispatched : s'.dispatched ≡ s.dispatched
    same_reads : s'.reads ≡ s.reads
    none_left : s'.reactor.replies ≡ []

  write_all :
      {start : Connection} (s : System)
      → Serves to_mcp_reply reserve_limit k start s
      → (s' : System) × HasWritten s s'
  write_all s inv = elim inv.signalled [
    | inl nothing ↦ (
      s,
      record {
        steps = done s;
        same_pool = refl;
        same_hands = refl;
        same_dispatched = refl;
        same_reads = refl;
        none_left = nothing;
      },
    )
    | inr pending ↦
        let (r, cs, e, emptied, _, _) =
          on_reply-written s.reactor k inv.order.registry inv.order.wired in
        (
          record s { reactor = r; calls = s.calls ++ cs },
          record {
            steps = more (replies s r cs pending e) (done _);
            same_pool = refl;
            same_hands = refl;
            same_dispatched = refl;
            same_reads = refl;
            none_left = emptied;
          },
        )
  ]

  -- After any steps from a state in which the map and the handles of the reactor are in order, a
  -- connection is open, every worker runs, none holds a stop marker, a signal is on its way if
  -- replies wait, and nothing is read from it or dispatched, held, waiting or written for it yet,
  -- none of which closes it, the worker that the connection's id picks and the reply callback can
  -- take further steps, with no more reads and dispatches, after which exactly the answers to all
  -- batches that the connection dispatched were written to it, in order.
  pub system_answers :
      (s s' : System)
      → NothingYet k s
      → Steps to_mcp_reply reserve_limit k s s'
      → (s'' : System) × Steps to_mcp_reply reserve_limit k s' s''
        × (s''.dispatched ≡ s'.dispatched)
        × (s''.reads ≡ s'.reads)
        × (written k s''.calls ≡ replies_to k (batch_replies to_mcp_reply s'.dispatched))
  system_answers s s' fresh steps =
      let inv =
        Steps-Serves to_mcp_reply reserve_limit k steps
          (NothingYet-Serves to_mcp_reply reserve_limit k s fresh) in
      let (s₁, idle) =
        become-IsIdle to_mcp_reply reserve_limit k (k % s'.pool.size) s'
          (mod-lt k inv.order.staffed) inv in
      let inv₁ = Steps-Serves to_mcp_reply reserve_limit k idle.steps inv in
      let (s₂, last) = write_all s₁ inv₁ in
      let inv₂ = Steps-Serves to_mcp_reply reserve_limit k last.steps inv₁ in
      let home = ap (λ n. k % n) (ap (λ p. p.size) last.same_pool ∙ idle.same_size) in
      let held =
        ap (load to_mcp_reply k s₂.hands s₂.pool.workers) home
        ∙ ap₂ (λ hs p. load to_mcp_reply k hs p.workers (k % s'.pool.size)) last.same_hands
            last.same_pool
        ∙ ap₂ (λ bs qs. mine to_mcp_reply k (bs ++ qs)) idle.empty_hands idle.empty_queue in
      (
        s₂,
        Steps-trans to_mcp_reply reserve_limit k idle.steps last.steps,
        last.same_dispatched ∙ idle.same_dispatched,
        last.same_reads ∙ idle.same_reads,
        sym (append-nil (written k s₂.calls))
            ∙ ap (λ t. written k s₂.calls ++ t)
                (sym (ap₂ ◌++◌ (ap (replies_to k) last.none_left) held))
            ∙ inv₂.order.order
            ∙ ap (mine to_mcp_reply k) (last.same_dispatched ∙ idle.same_dispatched),
      )
