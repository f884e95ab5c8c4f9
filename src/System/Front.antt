-- ===== src/System/Front.antt =====
-- What reaches one connection in any run of reactor.cpp and worker.cpp, also one that closes it.
use vector_engine.Common.{
  ℕ, ◌≡◌, sym, ap, subst, ◌∙◌, ◌⊎◌, inl, inr, ◌++◌, append_assoc, Bytes, none, negsuc, ◌==◌, ==_iff,
  ==_ne, Bool-cases,
}
use mathlib.Core.Option.{none-ne-some}
use vector_engine.Common.Maps.{find}
use vector_engine.Errors.{Ensures-ok}
use vector_engine.Task.{TaskOutput}
use vector_engine.Connection.{Connection}
use vector_engine.Connection.Kept.{Kept, receive-Kept, on_read-Kept}
use vector_engine.Worker.Answers.{batch_replies}
use vector_engine.Reactor.{on_close}
use vector_engine.Reactor.Registry.{find-IsEntry, on_close_unregisters}
use vector_engine.Reactor.Send.{written, replies_to}
use vector_engine.System.{
  System, Step, Steps, receives, ends, fetches, answers_batch, replies, writes, connects, closes,
  done, more,
}
use vector_engine.System.Load.{mine, mine-append}
use vector_engine.System.InOrder.{InOrder}
use vector_engine.System.Workers.{step-fetches, step-answers_batch}
use vector_engine.System.Loop.{step-replies, step-writes, step-connects, step-closes}
use vector_engine.System.Reads.{step-assigns, step-receives, still_open}
use vector_engine.System.Gone.{IsGone, on_close-IsGone}
use vector_engine.System.Closed.{IsSilent, Step-IsSilent, Steps-IsSilent}
use vector_engine.System.Order.{NothingYet, NothingYet-Serves}

module _ (to_mcp_reply : TaskOutput → Bytes) (k : ℕ) where
  -- What was written to the connection is at the front of the answers to what it dispatched.
  abbrev IsFront : System → Type 0
  IsFront s = (rest : Bytes) × (mine to_mcp_reply k s.dispatched ≡ written k s.calls ++ rest)

  -- The connection is open and served in order, or it was closed.
  abbrev IsFollowed : System → Type 0
  IsFollowed s =
      ((conn : Connection) × InOrder to_mcp_reply k conn s) ⊎ (IsGone k s.reactor × IsFront s)

  InOrder-IsFront : {conn : Connection} (s : System) → InOrder to_mcp_reply k conn s → IsFront s
  InOrder-IsFront s inv = (_, sym inv.order)

  IsSilent-IsFront : {s s' : System} → IsSilent k s s' → IsFront s → IsFront s'
  IsSilent-IsFront {s} silent (rest, e) = (
    rest ++ mine to_mcp_reply k silent.further,
    ap (mine to_mcp_reply k) silent.dispatches
        ∙ mine-append to_mcp_reply k s.dispatched silent.further
        ∙ ap (λ t. t ++ mine to_mcp_reply k silent.further)
            (e ∙ ap (λ t. t ++ rest) (sym silent.same_written))
        ∙ append_assoc _ rest (mine to_mcp_reply k silent.further),
  )

  module _ (reserve_limit j : ℕ) where
    pub stay-IsFollowed :
        {s s' : System} {conn : Connection}
        → Step to_mcp_reply reserve_limit j s s'
        → InOrder to_mcp_reply k conn s
        → IsFollowed s'
    stay-IsFollowed {conn} (receives s id n bytes c c' es p found read _ e _) inv =
        let kept = Ensures-ok (Kept c) read (receive-Kept reserve_limit c n bytes) in
        let (now, opened) = still_open k id s.reactor.connections conn c c' inv.opened found in
        inl
          (now, step-receives to_mcp_reply k s id n bytes c c' es p inv found kept.same_id opened e)
    stay-IsFollowed {conn} (ends s id n c c' es _ found read _) inv =
        let kept = Ensures-ok (Kept c) read (on_read-Kept reserve_limit c (negsuc n)) in
        let (now, opened) = still_open k id s.reactor.connections conn c c' inv.opened found in
        inl (now, step-assigns to_mcp_reply k s id c c' es s.reads inv found kept.same_id opened)
    stay-IsFollowed (fetches s i w found free _) inv =
        inl (_, step-fetches to_mcp_reply k s i w inv found free)
    stay-IsFollowed (answers_batch s i id ts builder bs r held e) inv =
        inl (_, step-answers_batch to_mcp_reply k s i id ts builder bs r inv held e)
    stay-IsFollowed (replies s r cs _ e) inv = inl (_, step-replies to_mcp_reply k s r cs inv e)
    stay-IsFollowed (writes s address status) inv =
        inl (_, step-writes to_mcp_reply k s address status inv)
    stay-IsFollowed (connects s uv n accept_err r cs unwrapped some_size le bounded alive e) inv =
        inl (
          _,
          step-connects to_mcp_reply k s uv n accept_err r cs inv unwrapped some_size le bounded
              alive e,
        )
    stay-IsFollowed (closes s closed _) inv = elim (Bool-cases (closed.id == k)) [
      | inl same ↦
          let (_, given) =
            find-IsEntry s.reactor.connection_cnt k s.reactor.connections inv.registry inv.opened in
          let absent =
            subst (λ i. find i (on_close closed s.reactor).connections ≡ none)
              ((==_iff closed.id k).0 same)
              (on_close_unregisters closed s.reactor inv.registry).1 in
          inr (
            on_close-IsGone k s.reactor closed inv.registry inv.wired given absent,
            InOrder-IsFront s inv,
          )
      | inr other ↦ inl (_, step-closes to_mcp_reply k s closed inv (==_ne closed.id k other))
    ]

    follow :
        {s s' : System} → Steps to_mcp_reply reserve_limit j s s' → IsFollowed s → IsFollowed s'
    follow (done s) h = h
    follow (more step rest) (inl (conn, inv)) = follow rest (stay-IsFollowed step inv)
    follow (more step rest) (inr (gone, front)) =
        let silent = Step-IsSilent to_mcp_reply reserve_limit j k step gone in
        follow rest (inr (silent.gone, IsSilent-IsFront silent front))

    NothingYet-IsFollowed : (s : System) → NothingYet k s → IsFollowed s
    NothingYet-IsFollowed s fresh =
        let inv = NothingYet-Serves to_mcp_reply reserve_limit k s fresh in
        inl (inv.conn, inv.order)

    -- From a state in which the map and the handles of the reactor are in order, a connection is
    -- open, every worker runs, none holds a stop marker, a signal is on its way if replies wait,
    -- and nothing is read from it or dispatched, held, waiting or written for it yet, after any
    -- steps of the loop and the workers, also those that close the connection: what was written
    -- to it is at the front of the answers to the batches that it dispatched, in their order.
    pub system_front :
        (s s' : System)
        → NothingYet k s
        → Steps to_mcp_reply reserve_limit j s s'
        → (rest : Bytes) × (replies_to k (batch_replies to_mcp_reply s'.dispatched)
            ≡ written k s'.calls ++ rest)
    system_front s s' fresh steps = elim (follow steps (NothingYet-IsFollowed s fresh)) [
      | inl (_, inv) ↦ InOrder-IsFront s' inv
      | inr (_, front) ↦ front
    ]

    -- From a state in which the map and the handles of the reactor are in order, a connection is
    -- open, every worker runs, none holds a stop marker, a signal is on its way if replies wait,
    -- and nothing is read from it or dispatched, held, waiting or written for it yet, after any
    -- steps that have taken the connection out of the map, no further step puts a connection
    -- under its id or writes anything to it, whatever replies still wait or come for it.
    pub system_closed :
        (s s' s'' : System)
        → NothingYet k s
        → Steps to_mcp_reply reserve_limit j s s'
        → find k s'.reactor.connections ≡ none
        → Steps to_mcp_reply reserve_limit j s' s''
        → (find k s''.reactor.connections ≡ none) × (written k s''.calls ≡ written k s'.calls)
    system_closed s s' s'' fresh steps absent later =
        elim (follow steps (NothingYet-IsFollowed s fresh)) [
          | inl (conn, inv) ↦ absurd (none-ne-some conn (sym absent ∙ inv.opened))
          | inr (gone, _) ↦
              let silent = Steps-IsSilent to_mcp_reply reserve_limit j k later gone in
              (silent.gone.absent, silent.same_written)
        ]
