-- ===== src/Reactor/Round.antt =====
-- From a worker back to the clients: the calls of `send` in one round of a worker, and then the
-- reply callback.
use vector_engine.Common.{
  ℕ, ◌≡◌, refl, sym, ap, ap₂, ◌∙◌, true, false, List, [], ◌∷◌, ◌++◌, append-nil, append_assoc,
  Bytes,
}
use vector_engine.Common.Maps.{find}
use vector_engine.Task.{TaskOutput}
use vector_engine.Errors.{Outcome, ok, ◌>>=◌}
use vector_engine.Worker.{BatchTask, Reply, run_round}
use vector_engine.Worker.Answers.{sent, batch_replies, run_round-replies}
use vector_engine.Reactor.{Reactor, Call, send, on_reply}
use vector_engine.Reactor.Registry.{IsRegistry, IsWired}
use vector_engine.Reactor.Signals.{send_lem}
use vector_engine.Reactor.Send.{written, replies_to, if_open, on_reply-written}

-- The calls of `send`, in order.
unfoldable pub send_all : List (List Reply) → Reactor → Outcome Reactor
send_all [] r = ok r
send_all (rs ∷ rest) r = send rs r >>= send_all rest

module _ (to_mcp_reply : TaskOutput → Bytes) where
  -- What the calls of `send` leave.
  record Queued (rs : List Reply) (r r' : Reactor) : Type 0 where
    replies : r'.replies ≡ rs
    same_connections : r'.connections ≡ r.connections
    registry : IsRegistry r'
    wired : IsWired r'

  send_all-Queued :
      (sends : List (List Reply)) (r : Reactor)
      → IsRegistry r
      → IsWired r
      → (r' : Reactor) × (send_all sends r ≡ ok r')
        × Queued (r.replies ++ sent to_mcp_reply sends) r r'
  unfolding send_all
  send_all-Queued [] r reg wired = (
    r,
    refl,
    record {
      replies = sym (append-nil r.replies);
      same_connections = refl;
      registry = reg;
      wired = wired;
    },
  )
  send_all-Queued (rs ∷ rest) r reg wired =
      let next = record r { replies = r.replies ++ rs; reply_pending = true } in
      let next_wired : IsWired next = wired in
      let (r', e, q) = send_all-Queued rest next reg next_wired in
      (
        r',
        rw (send_lem rs r wired) e,
        record {
          replies = q.replies ∙ append_assoc r.replies rs (sent to_mcp_reply rest);
          same_connections = q.same_connections;
          registry = q.registry;
          wired = q.wired;
        },
      )

  -- With every connection in the map under its own id and the handles of the reactor wired to it,
  -- when a worker has run a round and the reply callback has run after it, a connection that is
  -- in the map was written the replies that waited for it, and then those to its batches of that
  -- round, in order; one that is not in the map was written nothing.
  pub round-written :
      (r : Reactor) (bs : List BatchTask) (k : ℕ)
      → IsRegistry r
      → IsWired r
      → (r' r'' : Reactor) × (cs : List Call) × (send_all (run_round to_mcp_reply bs [] false).0 r
          ≡ ok r')
        × (on_reply r' ≡ ok (r'', cs))
        × (written k cs
            ≡ if_open
                (find k r.connections)
                (replies_to k (r.replies ++ batch_replies to_mcp_reply bs)))
  round-written r bs k reg wired =
      let (r', e, q) = send_all-Queued (run_round to_mcp_reply bs [] false).0 r reg wired in
      let (r'', cs, e', _, _, w) = on_reply-written r' k q.registry q.wired in
      let all =
        q.replies ∙ ap (λ rs. r.replies ++ rs) (run_round-replies to_mcp_reply bs false).0 in
      (
        r',
        r'',
        cs,
        e,
        e',
        w ∙ ap₂ (λ m rs. if_open (find k m) (replies_to k rs)) q.same_connections all,
      )
