-- ===== src/System/Stream.antt =====
-- From the bytes that a client sends to the bytes that it is sent: the reads of connection.cpp and
-- the threads of reactor.cpp and worker.cpp.
use vector_engine.Common.{ℕ, ◌≡◌, sym, subst, ap, ◌∙◌, List, [], ◌++◌, map, Bytes, All}
use vector_engine.Errors.{ok}
use vector_engine.Resp.Command.{RespCommand}
use vector_engine.Resp.Parser.{parse}
use vector_engine.Resp.Parser.Stream.{parse_nil}
use vector_engine.Task.{TaskOutput, create}
use vector_engine.Protocol.{resp, resp_response_builder}
use vector_engine.Connection.{Connection}
use vector_engine.Connection.Dispatch.{IsOwn}
use vector_engine.Connection.Stream.{received, receive_all-Step, IsNew}
use vector_engine.Worker.Answers.{answers}
use vector_engine.Reactor.Send.{written}
use vector_engine.System.{System, Steps}
use vector_engine.System.Load.{mine}
use vector_engine.System.Batches.{mine-of_connection, own-answers}
use vector_engine.System.Serves.{Serves}
use vector_engine.System.Order.{NothingYet, NothingYet-Serves, IsQuiet, Steps-Serves, system_order}

module _ (to_mcp_reply : TaskOutput → Bytes) (reserve_limit k : ℕ) where
  -- What was dispatched for a new RESP connection is what one parse of all its bytes gives.
  pub Serves-parse :
      {start : Connection} (s : System)
      → IsNew k resp start
      → Serves to_mcp_reply reserve_limit k start s
      → (cs : List RespCommand) × (n : ℕ) × (parse reserve_limit (received (s.reads k))
          ≡ ok (cs, n))
        × (mine to_mcp_reply k s.dispatched
            ≡ answers to_mcp_reply resp_response_builder (map create cs))
  Serves-parse {start} s new inv =
      let drained =
        subst (λ text. parse reserve_limit text ≡ ok ([], 0)) (sym new.empty)
          (parse_nil reserve_limit) in
      let t =
        receive_all-Step reserve_limit start (s.reads k) new.valid new.same_protocol drained
          inv.history inv.stays in
      (
        t.cmds,
        t.len,
        ap (λ (b : Bytes). parse reserve_limit (b ++ received (s.reads k))) (sym new.empty)
            ∙ t.parsed,
        mine-of_connection to_mcp_reply k s.dispatched
            ∙ ap (mine to_mcp_reply k) inv.handed
            ∙ own-answers to_mcp_reply k inv.es
                (subst (λ id. All (IsOwn id) inv.es) new.same_id t.own)
            ∙ ap (answers to_mcp_reply resp_response_builder) t.tasks,
      )

  -- From a state in which the map and the handles of the reactor are in order, a new RESP
  -- connection is open, every worker runs, none holds a stop marker, a signal is on its way if
  -- replies wait, and nothing is read from it or dispatched, held, waiting or written for it yet,
  -- whatever the sizes of its reads and the order in which the loop reads from all connections,
  -- takes signals, connects and closes other connections and the workers fetch and answer
  -- batches, as long as it is not closed: what was written to the connection is at the front of
  -- the answers to the commands of one parse of all bytes that were read from it, in order, and
  -- it is all of them once no reply and no batch is under way.
  pub system_stream :
      (s s' : System) (fresh : NothingYet k s)
      → IsNew k resp fresh.conn
      → Steps to_mcp_reply reserve_limit k s s'
      → (cs : List RespCommand) × (n : ℕ) × (rest : Bytes) × (parse reserve_limit
            (received (s'.reads k))
          ≡ ok (cs, n))
        × (answers to_mcp_reply resp_response_builder (map create cs) ≡ written k s'.calls ++ rest)
        × (IsQuiet s' → rest ≡ [])
  system_stream s s' fresh new steps =
      let inv =
        Steps-Serves to_mcp_reply reserve_limit k steps
          (NothingYet-Serves to_mcp_reply reserve_limit k s fresh) in
      let (cs, n, parsed, same) = Serves-parse s' new inv in
      let (rest, e, quiet) = system_order to_mcp_reply reserve_limit k s s' fresh steps in
      (cs, n, rest, parsed, sym same ∙ e, quiet)
